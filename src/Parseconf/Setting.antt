-- ===== src/Parseconf/Setting.antt =====
-- A line of the settings file that is written for a setting, and what it sets.
use dragonsunited_minecraft.Base.{
  leb, ℕ, suc, ◌+◌, ◌-◌, ◌%◌, ◌^◌, ◌<◌, Bool, true, false, [], ◌∷◌, ◌++◌, some, ◌==◌, ◌≡◌, refl, ap,
  ◌∙◌, arith, length, take, get_or, Bytes, text, take_all,
}
use dragonsunited_minecraft.Base.Int.{ℤ}
use dragonsunited_minecraft.Run.{ok}
use dragonsunited_minecraft.Parseconf.{
  Variables, listed, set_str, set_bool, set_uint, skip_space, load_str, load_bool, load_uint,
  unsigned, load_pair, vsf_parseconf_load_setting,
}
use dragonsunited_minecraft.Parseconf.Tables.{
  parseconf_str_array, parseconf_bool_array, parseconf_uint_array,
}
use dragonsunited_minecraft.Str.Cut.{
  str_get_char_at, str_upper, str_strdup_trimmed, leading, behind_last,
}
use dragonsunited_minecraft.Str.Lines.{newline}
use dragonsunited_minecraft.Str.Lines.Join.{Free}
use dragonsunited_minecraft.Str.Text.{str_isempty, str_equal_text, str_equal_internal, memcmp}
use dragonsunited_minecraft.Str.Text.Clean.{Clean, Clean-c_text, Clean-append}
use dragonsunited_minecraft.Str.Text.Split.{has, str_split_char-parts, before-append, after-append}
use dragonsunited_minecraft.Sysutil.{vsf_sysutil_isspace, vsf_sysutil_toupper}

-- A setting with its value.
pub data Setting : Type 0 where
  words : Bytes → Bytes → Setting
  flag : Bytes → Bool → Setting
  number : Bytes → ℕ → Setting

abbrev pub yes_no : Bool → Bytes
yes_no true = text "YES"
yes_no false = text "NO"

-- The line that is written for it, with the digits of a number.
abbrev pub written : (ℕ → Bytes) → Setting → Bytes
written digits (words name v) = name ++ (b'=' ∷ v)
written digits (flag name b) = name ++ (b'=' ∷ yes_no b)
written digits (number name n) = name ++ (b'=' ∷ digits n)

abbrev pub assigned : Setting → Variables → Variables
assigned (words name v) c = set_str name (some v) c
assigned (flag name b) c = set_bool name b c
assigned (number name n) c = set_uint name n c

-- Text that stands in one line.
abbrev pub InLine : Bytes → Type 0
InLine s = Clean s × Free newline s

-- A name begins with something else than a space or the mark of a comment.
abbrev pub IsName : Bytes → Type 0
IsName [] = false ≡ true
IsName (x ∷ s) =
    (vsf_sysutil_isspace x ≡ false)
    × ((x == b'#') ≡ false)
    × (has b'=' (x ∷ s) ≡ false)
    × InLine (x ∷ s)

-- A value that has no space at its ends.
abbrev pub IsValue : Bytes → Type 0
IsValue [] = false ≡ true
IsValue (x ∷ s) =
    (vsf_sysutil_isspace x ≡ false)
    × (vsf_sysutil_isspace (get_or (x ∷ s) (length s) 0) ≡ false)
    × (length (x ∷ s) < 2 ^ 32)
    × InLine (x ∷ s)

-- Digits that are read back as the number; they do not look octal.
abbrev pub IsDecimal : (Bytes → ℤ) → ℕ → Bytes → Type 0
IsDecimal atoi n [] = false ≡ true
IsDecimal atoi n (x ∷ s) = ((x == b'0') ≡ false) × (unsigned (atoi (x ∷ s)) ≡ n) × InLine (x ∷ s)

-- The name is one of the table that the setting is of, which the code finds first.
abbrev pub IsSetting : (Bytes → ℤ) → (ℕ → Bytes) → Setting → Type 0
IsSetting atoi digits (words name v) =
    IsName name × IsValue v × (listed parseconf_str_array name ≡ true)
IsSetting atoi digits (flag name b) =
    IsName name
    × (listed parseconf_str_array name ≡ false)
    × (listed parseconf_bool_array name ≡ true)
IsSetting atoi digits (number name n) =
    IsName name
    × IsDecimal atoi n (digits n)
    × (listed parseconf_str_array name ≡ false)
    × (listed parseconf_bool_array name ≡ false)
    × (listed parseconf_uint_array name ≡ true)

strdup_trimmed-IsValue : (v : Bytes) → IsValue v → str_strdup_trimmed v ≡ some v
unfolding str_strdup_trimmed leading behind_last
strdup_trimmed-IsValue [] h = cc
strdup_trimmed-IsValue (x ∷ s) (a, b, short, (clean, free)) =
    let len : (suc (length s) + 2 ^ 32 - 0) % 2 ^ 32 ≡ suc (length s) = omega arith in
    let some_left : (suc (length s) == 0) ≡ false = ground arith in
    rw (a, b)
      (rw len (
        rw some_left (
          ap some (
            ap (take (suc (length s))) (Clean-c_text (x ∷ s) clean)
            ∙ take_all (suc (length s)) (x ∷ s) (omega arith)))))

pub yes_no-InLine : (b : Bool) → InLine (yes_no b)
yes_no-InLine true = ground arith
yes_no-InLine false = ground arith

pub value-InLine : (v : Bytes) → IsValue v → InLine v
value-InLine [] h = cc
value-InLine (x ∷ s) (_, _, _, line) = line

pub decimal-InLine : (atoi : Bytes → ℤ) (t : Bytes) (n : ℕ) → IsDecimal atoi n t → InLine t
decimal-InLine atoi [] n h = cc
decimal-InLine atoi (x ∷ s) n (_, _, line) = line

module _ (atoi : Bytes → ℤ) (errs_fatal : Bool) (c : Variables) where
  -- The name and the value of a line.
  setting-pair :
      (name v : Bytes)
      → IsName name
      → Clean v
      → vsf_parseconf_load_setting atoi (name ++ (b'=' ∷ v)) errs_fatal c
        ≡ load_pair atoi name v errs_fatal c
  unfolding vsf_parseconf_load_setting
  setting-pair [] v h k = cc
  setting-pair (x ∷ s) v (space, mark, none_in, (clean, free)) k =
      let whole = Clean-append (x ∷ s) (b'=' ∷ v) clean (omega arith, k) in
      let same : skip_space (x ∷ (s ++ (b'=' ∷ v))) ≡ x ∷ (s ++ (b'=' ∷ v)) =
        unfold skip_space in rw space refl in
      rw (Clean-c_text (x ∷ (s ++ (b'=' ∷ v))) whole) (
        rw same (
          rw (str_split_char-parts (x ∷ (s ++ (b'=' ∷ v))) b'=' (omega arith))
            (rw (before-append b'=' (x ∷ s) v none_in, after-append b'=' (x ∷ s) v none_in) refl)))

  pair-words :
      (name v : Bytes)
      → IsValue v
      → listed parseconf_str_array name ≡ true
      → load_pair atoi name v errs_fatal c ≡ ok (set_str name (some v) c)
  unfolding load_pair load_str str_isempty
  pair-words name [] h e = cc
  pair-words name (x ∷ s) h e =
      let some_left : (suc (length s) == 0) ≡ false = ground arith in
      rw e (rw some_left (rw (strdup_trimmed-IsValue (x ∷ s) h) refl))

  pair-flag :
      (name : Bytes) (b : Bool)
      → listed parseconf_str_array name ≡ false
      → listed parseconf_bool_array name ≡ true
      → load_pair atoi name (yes_no b) errs_fatal c ≡ ok (set_bool name b c)
  unfolding load_pair load_bool str_isempty str_upper str_equal_text str_equal_internal memcmp
      vsf_sysutil_toupper
  pair-flag name true e f = rw (e, f) refl
  pair-flag name false e f = rw (e, f) refl

  pair-number :
      (name t : Bytes) (n : ℕ)
      → IsDecimal atoi n t
      → listed parseconf_str_array name ≡ false
      → listed parseconf_bool_array name ≡ false
      → listed parseconf_uint_array name ≡ true
      → load_pair atoi name t errs_fatal c ≡ ok (set_uint name n c)
  unfolding load_pair load_uint str_isempty str_get_char_at
  pair-number name [] n h e f g = cc
  pair-number name (x ∷ s) n (digit, value, line) e f g =
      let some_left : (suc (length s) == 0) ≡ false = ground arith in
      let inside : leb (suc (length s)) 0 ≡ false = ground arith in
      rw (e, f, g) (rw (some_left, inside) (rw (digit, value) refl))

  -- A line that is written for a setting of the tables sets its variable to the value, and no other.
  pub load_setting-written :
      (digits : ℕ → Bytes) (e : Setting)
      → IsSetting atoi digits e
      → vsf_parseconf_load_setting atoi (written digits e) errs_fatal c ≡ ok (assigned e c)
  load_setting-written digits (words name v) (h, k, e) =
      setting-pair name v h (value-InLine v k).0 ∙ pair-words name v k e
  load_setting-written digits (flag name b) (h, e, f) =
      setting-pair name (yes_no b) h (yes_no-InLine b).0 ∙ pair-flag name b e f
  load_setting-written digits (number name n) (h, k, e, f, g) =
      setting-pair name (digits n) h (decimal-InLine atoi (digits n) n k).0
      ∙ pair-number name (digits n) n k e f g
