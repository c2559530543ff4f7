-- ===== src/Ftpcmdio/Tests.antt =====
-- A command that comes in three bytes at a time, and a reply.
use dragonsunited_minecraft.Base.{
  ℕ, ◌≡◌, ◌++◌, [], ◌∷◌, true, false, refl, ap, ◌∙◌, arith, Bytes, text,
}
use dragonsunited_minecraft.Run.{ok}
use dragonsunited_minecraft.Netstr.Tests.{by_three, everything, by_three-Delivers}
use dragonsunited_minecraft.Str.Cut.{str_upper, str_replace_char}
use dragonsunited_minecraft.Str.Text.Split.{has}
use dragonsunited_minecraft.Ftpcmdio.{
  command, ftp_write_str_common, input_log, vsf_cmdio_get_cmd_and_arg,
}
use dragonsunited_minecraft.Ftpcmdio.Lines.{sent, word_of, arg_of, Trimmed}
use dragonsunited_minecraft.Ftpcmdio.Read.{get_cmd_and_arg-sent}
use dragonsunited_minecraft.Ftpcmdio.Reply.{telnet_read, write_str_common-one_line}

abbrev cwd_line : Bytes
cwd_line = text "cwd a\nb"

-- The last byte of a line.
last_or : Bytes → ℕ → ℕ
last_or [] d = d
last_or (x ∷ xs) d = last_or xs x

last-append : (m : Bytes) (y d : ℕ) → last_or (m ++ (y ∷ [])) d ≡ y
unfolding last_or
last-append [] y d = refl
last-append (x ∷ m) y d = last-append m y x

cwd_line-Trimmed : Trimmed cwd_line
unfolding last_or
cwd_line-Trimmed m e =
    let same = ap (λ z. last_or z 0) e ∙ last-append m b'\r' 0 in absurd (omega (arith, same))

get_cmd_and_arg-sent_example :
    (s : Bytes) × (vsf_cmdio_get_cmd_and_arg true by_three (sent cwd_line 1 ++ text "QUIT")
      ≡ ok (
          command
            (str_upper (word_of cwd_line))
            (arg_of cwd_line)
            (input_log true (str_upper (word_of cwd_line)) (arg_of cwd_line))
            s))
    × (everything s ≡ text "QUIT")
get_cmd_and_arg-sent_example =
    get_cmd_and_arg-sent by_three everything by_three-Delivers true cwd_line (text "QUIT") 1
      (sent cwd_line 1 ++ text "QUIT") (unfold has in refl) cwd_line-Trimmed (omega arith) refl

abbrev digits : ℕ → Bytes
digits n = text "250"

write_str_common-one_line_example :
    (l : Bytes) × (ftp_write_str_common digits 250 b' ' (text "a\nb")
      ≡ ok (l ++ (b'\r' ∷ b'\n' ∷ [])))
    × (has b'\n' l ≡ false)
    × (telnet_read l ≡ (text "250" ++ (b' ' ∷ [])) ++ str_replace_char (text "a\nb") b'\n' 0)
write_str_common-one_line_example =
    write_str_common-one_line digits 250 b' ' (text "a\nb") (unfold has in refl)
      (unfold has in refl) (unfold has in refl) (unfold has in refl)
