-- ===== src/Parseconf/Errors.antt =====
-- Any line, and any file, of settings.
use native.Mathlib.Decide.{ℕ_discrete}
use dragonsunited_minecraft.Base.{
  ℕ, suc, Bool, true, false, ◌||◌, List, [], ◌∷◌, Option, some, ◌==◌, if◌then◌else◌, ◌≡◌, ◌≢◌, none,
  ◌⊎◌, inl, inr, refl, arith, leb, length, Bytes, text, bytes_eq, bytes_eq_iff, Bool-cases,
}
use dragonsunited_minecraft.Base.Int.{ℤ}
use dragonsunited_minecraft.Files.{Kind, regular, directory, symlink, other, is_regfile}
use dragonsunited_minecraft.Run.{Run, ok, stop, die}
use dragonsunited_minecraft.Parseconf.{
  Variables, listed, set_str, set_bool, set_uint, unless_fatal, skip_space, load_str, load_bool,
  load_uint, load_pair, vsf_parseconf_load_setting, is_skipped, load_line, Machine, Owned, is_owned,
  load_text,
}
use dragonsunited_minecraft.Parseconf.File.{load_lines, loop-lines}
use dragonsunited_minecraft.Parseconf.Tables.{
  parseconf_str_array, parseconf_bool_array, parseconf_uint_array,
}
use dragonsunited_minecraft.Str.Cut.{str_get_char_at, str_all_space, str_upper}
use dragonsunited_minecraft.Str.Lines.Walk.{lines}
use dragonsunited_minecraft.Str.Text.{c_text, str_isempty, str_equal_text}
use dragonsunited_minecraft.Str.Text.Split.{before, after, str_split_char-parts}

-- Only the variables of this name may differ.
abbrev pub SameBut : Bytes → Variables → Variables → Type 0
SameBut name c c' =
    (n : Bytes)
    → n ≢ name
    → (c'.str_of n ≡ c.str_of n) × (c'.bool_of n ≡ c.bool_of n) × (c'.uint_of n ≡ c.uint_of n)

-- The process dies where errors are fatal, or goes on with what `Q` holds of.
abbrev pub Ends : (Variables → Type 0) → Bool → Run Variables → Type 0
Ends Q errs_fatal r = ((errs_fatal ≡ true) × (r ≡ stop die)) ⊎ ((c : Variables) × (r ≡ ok c) × Q c)

other_name : (n name : Bytes) → n ≢ name → bytes_eq n name ≡ false
other_name n name h = elim (Bool-cases (bytes_eq n name)) [
  | inl e ↦ absurd (h ((bytes_eq_iff n name).0 e))
  | inr e ↦ e
]

same-SameBut : (name : Bytes) (c : Variables) → SameBut name c c
same-SameBut name c = λ n h. (refl, refl, refl)

unless_fatal-Ends :
    (name : Bytes) (errs_fatal : Bool) (c : Variables)
    → Ends (SameBut name c) errs_fatal (unless_fatal errs_fatal c)
unless_fatal-Ends name true c = inl (refl, refl)
unless_fatal-Ends name false c = inr (c, refl, same-SameBut name c)

set_str-SameBut :
    (name : Bytes) (v : Option Bytes) (c : Variables) → SameBut name c (set_str name v c)
set_str-SameBut name v c = λ n h. (rw (other_name n name h) refl, refl, refl)

set_bool-SameBut : (name : Bytes) (v : Bool) (c : Variables) → SameBut name c (set_bool name v c)
set_bool-SameBut name v c = λ n h. (refl, rw (other_name n name h) refl, refl)

set_uint-SameBut : (name : Bytes) (v : ℕ) (c : Variables) → SameBut name c (set_uint name v c)
set_uint-SameBut name v c = λ n h. (refl, refl, rw (other_name n name h) refl)

choose :
    {Q : Variables → Type 0} {f : Bool} (b : Bool) {x y : Run Variables}
    → Ends Q f x
    → Ends Q f y
    → Ends Q f (if b then x else y)
choose true h k = h
choose false h k = k

load_bool-Ends :
    (name v : Bytes) (errs_fatal : Bool) (c : Variables)
    → Ends (SameBut name c) errs_fatal (load_bool name v errs_fatal c)
unfolding load_bool
load_bool-Ends name v errs_fatal c =
    let is : Bytes → Bool = λ word. str_equal_text (str_upper v) word in
    choose (is (text "YES") || (is (text "TRUE") || is (text "1")))
      (inr (set_bool name true c, refl, set_bool-SameBut name true c))
      (choose (is (text "NO") || (is (text "FALSE") || is (text "0")))
        (inr (set_bool name false c, refl, set_bool-SameBut name false c))
        (unless_fatal-Ends name errs_fatal c))

module _ (atoi : Bytes → ℤ) (errs_fatal : Bool) where
  load_uint-Ends :
      (name : Bytes) (x : ℕ) (s : Bytes) (c : Variables)
      → Ends (SameBut name c) errs_fatal (load_uint atoi name (x ∷ s) c)
  unfolding load_uint str_get_char_at
  load_uint-Ends name x s c =
      let inside : leb (suc (length s)) 0 ≡ false = ground arith in
      rw inside (inr (_, refl, set_uint-SameBut name _ c))

  load_pair-Ends :
      (name v : Bytes) (c : Variables)
      → Ends (SameBut name c) errs_fatal (load_pair atoi name v errs_fatal c)
  unfolding load_pair load_str str_isempty
  load_pair-Ends name [] c =
      choose (listed parseconf_str_array name) (inr (_, refl, set_str-SameBut name _ c))
        (unless_fatal-Ends name errs_fatal c)
  load_pair-Ends name (x ∷ s) c =
      let some_left : (suc (length s) == 0) ≡ false = ground arith in
      choose (listed parseconf_str_array name) (inr (_, refl, set_str-SameBut name _ c)) (
        rw some_left (
          choose (listed parseconf_bool_array name) (load_bool-Ends name (x ∷ s) errs_fatal c) (
            choose (listed parseconf_uint_array name) (load_uint-Ends name x s c)
              (unless_fatal-Ends name errs_fatal c))))

  -- Any line at all: it sets at most the variable of the name before its first `=`, and the process
  -- dies only where errors are fatal. No `bug` is reached.
  pub load_setting-Ends :
      (setting : Bytes) (c : Variables)
      → Ends
          (SameBut (before b'=' (skip_space (c_text setting))) c)
          errs_fatal
          (vsf_parseconf_load_setting atoi setting errs_fatal c)
  unfolding vsf_parseconf_load_setting
  load_setting-Ends setting c =
      let l = skip_space (c_text setting) in
      rw (str_split_char-parts l b'=' (omega arith))
        (load_pair-Ends (before b'=' l) (after b'=' l) c)

  is_skipped-total : (l : Bytes) → (b : Bool) × (is_skipped l ≡ ok b)
  unfolding is_skipped str_isempty str_get_char_at
  is_skipped-total [] = (true, refl)
  is_skipped-total (x ∷ s) =
      let some_left : (suc (length s) == 0) ≡ false = ground arith in
      let inside : leb (suc (length s)) 0 ≡ false = ground arith in
      ((x == b'#') || str_all_space (x ∷ s), rw (some_left, inside) refl)

  load_line-Ends :
      (skipped : Bool) (l : Bytes) (c : Variables)
      → Ends (λ c'. Unit) errs_fatal (load_line atoi skipped l c errs_fatal)
  load_line-Ends true l c = inr (c, refl, tt)
  load_line-Ends false l c = elim (load_setting-Ends l c) [
    | inl (f, e) ↦ inl (f, e)
    | inr (c', e, _) ↦ inr (c', e, tt)
  ]

  load_lines-Ends :
      (ls : List Bytes) (c : Variables)
      → Ends (λ c'. Unit) errs_fatal (load_lines atoi errs_fatal ls c)
  unfolding load_lines
  load_lines-Ends [] c = inr (c, refl, tt)
  load_lines-Ends (l ∷ ls) c =
      let (b, e) = is_skipped-total l in
      rw e (elim (load_line-Ends b l c) [
        | inl (f, g) ↦ inl (f, rw g refl)
        | inr (c', g, _) ↦ rw g (load_lines-Ends ls c')
      ])

-- The file is a regular one of the user.
abbrev pub OwnedBy : Option Owned → ℕ → Type 0
OwnedBy stat uid = (st : Owned) × (stat ≡ some st) × (st.uid ≡ uid) × (st.kind ≡ regular)

-- It is not there, or another user's, or no regular one.
abbrev pub Foreign : Option Owned → ℕ → Type 0
Foreign stat uid =
    (stat ≡ none) ⊎ ((st : Owned) × (stat ≡ some st) × ((st.uid ≢ uid) ⊎ (st.kind ≢ regular)))

regfile-cases :
    (k : Kind) → ((k ≡ regular) × (is_regfile k ≡ true)) ⊎ ((k ≢ regular) × (is_regfile k ≡ false))
unfolding is_regfile
regfile-cases regular = inl (refl, refl)
regfile-cases directory = inr (λ e. cc, refl)
regfile-cases symlink = inr (λ e. cc, refl)
regfile-cases other = inr (λ e. cc, refl)

is_owned-cases :
    (stat : Option Owned) (uid : ℕ)
    → (OwnedBy stat uid × (is_owned stat uid ≡ true))
      ⊎ (Foreign stat uid × (is_owned stat uid ≡ false))
unfolding is_owned
is_owned-cases none uid = inr (inl refl, refl)
is_owned-cases (some st) uid = elim (ℕ_discrete st.uid uid) [
  | yes e ↦ elim (regfile-cases st.kind) [
    | inl (k, r) ↦ inl ((st, refl, e, k), rw r (rw e (ground arith)))
    | inr (k, r) ↦ inr (inr (st, refl, inr k), rw r (ground arith))
  ]
  | no n ↦ inr (inr (st, refl, inl n), ground arith)
]

-- The text of a file that is a regular one of the user is read to its end, whatever it is: its lines
-- are loaded in turn, and the process dies only where errors are fatal. Where the file is another
-- user's, or no regular one, or not there to ask, the process dies, even where errors are not fatal.
pub load_text-Ends :
    (m : Machine) (name s : Bytes) (errs_fatal : Bool) (c : Variables)
    → (OwnedBy (m.stat name) m.getuid
        × (load_text m name errs_fatal (some s) c ≡ load_lines m.atoi errs_fatal (lines s) c)
        × Ends (λ c'. Unit) errs_fatal (load_text m name errs_fatal (some s) c))
      ⊎ (Foreign (m.stat name) m.getuid × (load_text m name errs_fatal (some s) c ≡ stop die))
unfolding load_text
load_text-Ends m name s errs_fatal c = elim (is_owned-cases (m.stat name) m.getuid) [
  | inl (o, e) ↦
      let in_turn =
        loop-lines m.atoi errs_fatal s (suc (length s)) 0 s c refl (omega arith) (omega arith) in
      inl (o, rw e in_turn, rw e (rw in_turn (load_lines-Ends m.atoi errs_fatal (lines s) c)))
  | inr (o, e) ↦ inr (o, rw e refl)
]
