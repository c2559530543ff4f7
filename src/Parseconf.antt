-- ===== src/Parseconf.antt =====
-- parseconf.c: the settings file. Each table is the list of its names, and the variables that its
-- entries point to, which are all different, are a function of the name. `atoi` is the C library's;
-- the system shows its files, with the owner and the kind of each.
pub mod Tables
pub mod Setting
pub mod File
pub mod Errors
mod Tests
use dragonsunited_minecraft.Base.{
  ℕ, zero, suc, ◌-◌, ◌%◌, ◌^◌, Bool, true, false, not, ◌&&◌, ◌||◌, List, [], ◌∷◌, Option, none,
  some, ◌==◌, if◌then◌else◌, length, Bytes, bytes_eq, text,
}
use dragonsunited_minecraft.Base.Int.{ℤ, pos, negsuc}
use dragonsunited_minecraft.Files.{Kind, is_regfile, Files, str_fileread}
use dragonsunited_minecraft.Run.{Run, ok, stop, bug, out_of_fuel, ◌>>=◌, ◌>>◌, bug_if, die_if}
use dragonsunited_minecraft.Parseconf.Tables.{
  parseconf_str_array, parseconf_bool_array, parseconf_uint_array,
}
use dragonsunited_minecraft.Str.Cut.{str_get_char_at, str_all_space, str_strdup_trimmed, str_upper}
use dragonsunited_minecraft.Str.Lines.{Line, str_getline}
use dragonsunited_minecraft.Str.Text.{c_text, str_isempty, str_equal_text, str_split_char}
use dragonsunited_minecraft.Sysutil.{vsf_sysutil_isspace}
use dragonsunited_minecraft.Sysutil.Numbers.{vsf_sysutil_octal_to_uint}

-- VSFTP_CONF_FILE_MAX
abbrev pub conf_file_max : ℕ
conf_file_max = 100000

-- The variables of tunables.c that the tables point to.
pub record Variables : Type 0 where
  pub str_of : Bytes → Option Bytes
  pub bool_of : Bytes → Bool
  pub uint_of : Bytes → ℕ

-- An entry of a table has this name.
unfoldable pub listed : List Bytes → Bytes → Bool
unfolding str_equal_text
listed [] name = false
listed (n ∷ ns) name = let rest = listed ns name in if str_equal_text name n then true else rest

abbrev pub set_str : Bytes → Option Bytes → Variables → Variables
set_str name v c = record c { str_of = λ n. if bytes_eq n name then v else c.str_of n }

abbrev pub set_bool : Bytes → Bool → Variables → Variables
set_bool name v c = record c { bool_of = λ n. if bytes_eq n name then v else c.bool_of n }

abbrev pub set_uint : Bytes → ℕ → Variables → Variables
set_uint name v c = record c { uint_of = λ n. if bytes_eq n name then v else c.uint_of n }

-- A setting that cannot be used ends the process or is passed over.
abbrev pub unless_fatal : Bool → Variables → Run Variables
unless_fatal errs_fatal c = do die_if errs_fatal; ok c

unfoldable pub skip_space : Bytes → Bytes
unfolding vsf_sysutil_isspace
skip_space [] = []
skip_space (c ∷ cs) = let rest = skip_space cs in if vsf_sysutil_isspace c then rest else c ∷ cs

unfoldable pub load_str : Bytes → Bytes → Variables → Variables
unfolding str_isempty str_strdup_trimmed
load_str name value c =
    set_str name (if str_isempty value then none else str_strdup_trimmed value) c

unfoldable pub load_bool : Bytes → Bytes → Bool → Variables → Run Variables
unfolding str_upper str_equal_text
load_bool name value0 errs_fatal c =
    let value = str_upper value0 in
    let is : Bytes → Bool = λ word. str_equal_text value word in
    if is (text "YES") || (is (text "TRUE") || is (text "1"))
    then ok (set_bool name true c)
    else if is (text "NO") || (is (text "FALSE") || is (text "0"))
    then ok (set_bool name false c)
    else unless_fatal errs_fatal c

-- An `int` in an `unsigned int`.
abbrev pub unsigned : ℤ → ℕ
unsigned (pos n) = n % 2 ^ 32
unsigned (negsuc n) = 2 ^ 32 - suc (n % 2 ^ 32)

-- Lines that are empty, blank or comments say nothing.
unfoldable pub is_skipped : Bytes → Run Bool
unfolding str_isempty str_get_char_at str_all_space
is_skipped l =
    if str_isempty l
    then ok true
    else (do first ← str_get_char_at l 0; ok (first == b'#' || str_all_space l))

module _ (atoi : Bytes → ℤ) where
  -- A value that starts with 0 is octal.
  unfoldable pub load_uint : Bytes → Bytes → Variables → Run Variables
  unfolding str_get_char_at vsf_sysutil_octal_to_uint
  load_uint name value c = do
    first ← str_get_char_at value 0
    ok (
        set_uint name
          (if first == b'0' then vsf_sysutil_octal_to_uint value else unsigned (atoi value)) c)

  -- A name and a value, by the table that has the name.
  unfoldable pub load_pair : Bytes → Bytes → Bool → Variables → Run Variables
  unfolding listed load_str load_bool load_uint str_isempty
  load_pair name value errs_fatal c =
      if listed parseconf_str_array name
      then ok (load_str name value c)
      else if str_isempty value
      then unless_fatal errs_fatal c
      else if listed parseconf_bool_array name
      then load_bool name value errs_fatal c
      else if listed parseconf_uint_array name
      then load_uint name value c
      else unless_fatal errs_fatal c

  unfoldable pub vsf_parseconf_load_setting : Bytes → Bool → Variables → Run Variables
  unfolding skip_space c_text str_split_char load_pair
  vsf_parseconf_load_setting setting errs_fatal c = do
    (name, value) ← str_split_char (skip_space (c_text setting)) b'='
    load_pair name value errs_fatal c

  abbrev pub load_line : Bool → Bytes → Variables → Bool → Run Variables
  load_line skipped l c errs_fatal =
      if skipped then ok c else vsf_parseconf_load_setting l errs_fatal c

  -- The loop over the lines; each passes a byte at least.
  unfoldable pub conf_loop : ℕ → Bytes → ℕ → Bool → Variables → Run Variables
  unfolding str_getline is_skipped vsf_parseconf_load_setting
  conf_loop zero s p errs_fatal c = stop out_of_fuel
  conf_loop (suc f) s p errs_fatal c = do
    l ← str_getline s p
    let rest : Variables → Run Variables = λ c'. conf_loop f s l.pos errs_fatal c'
    if not l.result then ok c else (do
      skipped ← is_skipped l.line_str
      c' ← load_line skipped l.line_str c errs_fatal
      rest c')

-- What `stat` says of a file.
pub record Owned : Type 0 where
  pub uid : ℕ
  pub kind : Kind

pub record Machine : Type 0 where
  pub files : Files
  pub stat : Bytes → Option Owned
  pub getuid : ℕ
  pub atoi : Bytes → ℤ

-- The file belongs to the user that the process runs as.
unfoldable pub is_owned : Option Owned → ℕ → Bool
unfolding is_regfile
is_owned none uid = false
is_owned (some st) uid = (st.uid == uid) && is_regfile st.kind

unfoldable pub load_text : Machine → Bytes → Bool → Option Bytes → Variables → Run Variables
unfolding is_owned conf_loop
load_text m name errs_fatal none c = unless_fatal errs_fatal c
load_text m name errs_fatal (some s) c = do
  die_if (not (is_owned (m.stat name) m.getuid))
  conf_loop m.atoi (suc (length s)) s 0 errs_fatal c

-- `s_p_saved_filename`, with the file that is named now.
abbrev pub chosen : Option Bytes → Option Bytes → Option Bytes
chosen none saved = saved
chosen (some name) saved = some name

unfoldable pub load_named : Machine → Option Bytes → Bool → Variables → Run Variables
unfolding str_fileread load_text
load_named m none errs_fatal c = stop bug
load_named m (some name) errs_fatal c = do
  contents ← str_fileread m.files name conf_file_max
  load_text m name errs_fatal contents c

-- The new saved name and the variables.
unfoldable pub vsf_parseconf_load_file :
    Machine → Option Bytes → Option Bytes → Bool → Variables → Run (Option Bytes × Variables)
unfolding load_named
vsf_parseconf_load_file m filename saved errs_fatal c = do
  let name = chosen filename saved
  c' ← load_named m name errs_fatal c
  ok (name, c')
