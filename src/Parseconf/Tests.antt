-- ===== src/Parseconf/Tests.antt =====
-- A settings file of a few lines, and the tables.
use dragonsunited_minecraft.Base.{
  ℕ, Bool, true, false, List, [], ◌∷◌, ◌++◌, ◌&&◌, not, none, some, ◌≡◌, ◌⊎◌, refl, arith, length,
  map, Bytes, text, bytes_eq,
}
use dragonsunited_minecraft.Base.Int.{ℤ, pos}
use dragonsunited_minecraft.Files.{regular, str_fileread, is_regfile}
use dragonsunited_minecraft.Run.{ok, stop, die}
use dragonsunited_minecraft.Parseconf.{
  Variables, listed, skip_space, vsf_parseconf_load_setting, conf_file_max, Machine, is_owned,
  load_text, vsf_parseconf_load_file,
}
use dragonsunited_minecraft.Parseconf.Errors.{
  SameBut, Ends, OwnedBy, Foreign, load_setting-Ends, load_text-Ends,
}
use dragonsunited_minecraft.Parseconf.File.{
  Entry, setting, comment, blank, line_of, all_assigned, AllEntries, load_lines, load_file-written,
}
use dragonsunited_minecraft.Parseconf.Setting.{words, flag, number, IsSetting}
use dragonsunited_minecraft.Parseconf.Tables.{
  parseconf_str_array, parseconf_bool_array, parseconf_uint_array,
}
use dragonsunited_minecraft.Str.Lines.Join.{with_newlines}
use dragonsunited_minecraft.Str.Lines.Walk.{lines}
use dragonsunited_minecraft.Str.Text.{c_text, str_equal_text, str_equal_internal, memcmp}
use dragonsunited_minecraft.Str.Text.Split.{before, has}
use dragonsunited_minecraft.Sysutil.{vsf_sysutil_isspace}

abbrev forty_two : Bytes → ℤ
forty_two s = pos 42

abbrev digits : ℕ → Bytes
digits n = text "42"

abbrev entries : List Entry
entries =
    comment (text " modpack server")
    ∷ setting (flag (text "write_enable") true)
    ∷ blank
    ∷ setting (number (text "max_clients") 42)
    ∷ setting (words (text "ftp_username") (text "mods"))
    ∷ []

abbrev file_text : Bytes
file_text = with_newlines (map (line_of digits) entries)

abbrev conf : Bytes
conf = text "vsftpd.conf"

abbrev machine : Machine
machine = record {
  files = record {
    open_file = λ name.
        some (record { kind = regular; size = length file_text; read = λ n. some file_text });
    stat = λ name. some regular;
  };
  stat = λ name. some (record { uid = 0; kind = regular });
  getuid = 0;
  atoi = forty_two;
}

abbrev defaults : Variables
defaults = record { str_of = λ n. none; bool_of = λ n. false; uint_of = λ n. 0 }

readable : str_fileread machine.files conf conf_file_max ≡ ok (some file_text)
unfolding str_fileread is_regfile
readable = refl

owned : is_owned (machine.stat conf) machine.getuid ≡ true
unfolding is_owned is_regfile
owned = refl

write_enable-IsSetting : IsSetting forty_two digits (flag (text "write_enable") true)
unfolding vsf_sysutil_isspace has listed str_equal_text str_equal_internal memcmp bytes_eq
    parseconf_str_array parseconf_bool_array
write_enable-IsSetting = (ground arith, refl, refl)

max_clients-IsSetting : IsSetting forty_two digits (number (text "max_clients") 42)
unfolding vsf_sysutil_isspace has listed str_equal_text str_equal_internal memcmp bytes_eq
    parseconf_str_array parseconf_bool_array parseconf_uint_array
max_clients-IsSetting = (ground arith, ground arith, refl, refl, refl)

ftp_username-IsSetting : IsSetting forty_two digits (words (text "ftp_username") (text "mods"))
unfolding vsf_sysutil_isspace has listed str_equal_text str_equal_internal memcmp bytes_eq
    parseconf_str_array
ftp_username-IsSetting = (ground arith, ground arith, refl)

entries-AllEntries : AllEntries forty_two digits entries
entries-AllEntries = (
  ground arith,
  (write_enable-IsSetting, (tt, (max_clients-IsSetting, (ftp_username-IsSetting, tt)))),
)

load_file-written_example :
    vsf_parseconf_load_file machine (some conf) none true defaults
    ≡ ok (some conf, all_assigned entries defaults)
load_file-written_example =
    load_file-written machine digits entries conf none true defaults entries-AllEntries readable
      owned

load_setting-Ends_example :
    Ends
      (SameBut (before b'=' (skip_space (c_text (text " write_enable=maybe")))) defaults)
      false
      (vsf_parseconf_load_setting forty_two (text " write_enable=maybe") false defaults)
load_setting-Ends_example = load_setting-Ends forty_two false (text " write_enable=maybe") defaults

load_text-Ends_example :
    (OwnedBy (machine.stat conf) machine.getuid
      × (load_text machine conf false (some file_text) defaults
          ≡ load_lines machine.atoi false (lines file_text) defaults)
      × Ends (λ c'. Unit) false (load_text machine conf false (some file_text) defaults))
    ⊎ (Foreign (machine.stat conf) machine.getuid
        × (load_text machine conf false (some file_text) defaults ≡ stop die))
load_text-Ends_example = load_text-Ends machine conf file_text false defaults

-- A name stands in one table only, and once.
distinct : List Bytes → Bool
distinct [] = true
distinct (n ∷ ns) = not (listed ns n) && distinct ns

names_distinct :
    distinct (parseconf_str_array ++ (parseconf_bool_array ++ parseconf_uint_array)) ≡ true
unfolding distinct listed str_equal_text str_equal_internal memcmp bytes_eq parseconf_str_array
    parseconf_bool_array parseconf_uint_array
names_distinct = refl
