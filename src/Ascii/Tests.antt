-- ===== src/Ascii/Tests.antt =====
-- Runs of ascii.c, and the theorems at these inputs.
use dragonsunited_minecraft.Base.{true, false, [], ◌∷◌, ◌++◌, ◌≡◌, refl, take, drop, text}
use dragonsunited_minecraft.Ascii.InPlace.{ascii_to_bin-plain}
use dragonsunited_minecraft.Ascii.RoundTrip.{
  lines_end_crlf, to_bin, holds_back, received-bin_to_ascii,
}
use dragonsunited_minecraft.Ascii.Stream.{
  plain, held_back, flushed, plain-append, bin_to_ascii-append,
}
use dragonsunited_minecraft.Ascii.{vsf_ascii_ascii_to_bin, vsf_ascii_bin_to_ascii}

to_unix : (vsf_ascii_ascii_to_bin (0 ∷ text "a\r\nb\r") 5 true).0 ≡ text "\ra\nbb\r"
unfolding vsf_ascii_ascii_to_bin
to_unix = refl

to_net : (vsf_ascii_bin_to_ascii (text "a\nb") false).stored ≡ text "a\r\nb"
unfolding vsf_ascii_bin_to_ascii
to_net = refl

two_lines_plain :
    let (b, r) = vsf_ascii_ascii_to_bin (0 ∷ text "a\r\nb\r") 5 true in
    (take r.stored (drop r.p_buf b) ≡ flushed true (text "a\r\nb\r") ++ plain (text "a\r\nb\r"))
    × (r.last_was_cr ≡ held_back (text "a\r\nb\r"))
two_lines_plain = ascii_to_bin-plain 0 (text "a\r\nb\r") true

plain-append_example :
    plain (text "a\r" ++ text "\nb")
    ≡ plain (text "a\r") ++ (flushed (held_back (text "a\r")) (text "\nb") ++ plain (text "\nb"))
plain-append_example = plain-append b'a' (text "\r") (text "b") 10

bin_to_ascii-append_example : vsf_ascii_bin_to_ascii (text "a\r" ++ text "\nb") false ≡ (
    let first = vsf_ascii_bin_to_ascii (text "a\r") false in
    let second = vsf_ascii_bin_to_ascii (text "\nb") first.last_was_cr in
    record { stored = first.stored ++ second.stored; last_was_cr = second.last_was_cr })
bin_to_ascii-append_example = bin_to_ascii-append (text "a\r") (text "\nb") false

received-bin_to_ascii_example :
    (lines_end_crlf false (vsf_ascii_bin_to_ascii (text "a\nb\r") false).stored ≡ true)
    × (to_bin 0 (vsf_ascii_bin_to_ascii (text "a\nb\r") false).stored false
          ++ to_bin 7 [] (holds_back 0 (vsf_ascii_bin_to_ascii (text "a\nb\r") false).stored false)
        ≡ text "a\nb\r")
received-bin_to_ascii_example =
    received-bin_to_ascii (text "a\nb\r") 0 7 (refl, (refl, (refl, (refl, tt))))
