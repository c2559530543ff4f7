-- ===== src/Parseconf/File.antt =====
-- `vsf_parseconf_load_file` on a file that is written for a list of settings.
use dragonsunited_minecraft.Base.{
  ℕ, zero, suc, ◌-◌, ◌<◌, ◌≤◌, Bool, true, false, List, [], ◌∷◌, ◌++◌, map, Option, some, ◌==◌, ◌≡◌,
  refl, sym, ap, ◌∙◌, arith, length, drop, leb, Bytes,
}
use dragonsunited_minecraft.Base.Int.{ℤ}
use dragonsunited_minecraft.Files.{str_fileread}
use dragonsunited_minecraft.Run.{Run, ok, stop, ◌>>=◌}
use dragonsunited_minecraft.Parseconf.{
  Variables, conf_file_max, is_skipped, load_line, conf_loop, Machine, is_owned, load_text,
  load_named, vsf_parseconf_load_file,
}
use dragonsunited_minecraft.Parseconf.Setting.{
  Setting, words, flag, number, written, assigned, yes_no, IsName, IsSetting, yes_no-InLine,
  value-InLine, decimal-InLine, load_setting-written,
}
use dragonsunited_minecraft.Str.Cut.{str_get_char_at, str_all_space}
use dragonsunited_minecraft.Str.Lines.{newline, str_getline}
use dragonsunited_minecraft.Str.Lines.Join.{with_newlines, Free, AllFree, lines-with_newlines}
use dragonsunited_minecraft.Str.Lines.Walk.{
  first_line, after_line, lines, lines-cons, getline-Reads, getline-end,
}
use dragonsunited_minecraft.Str.Text.{str_isempty}

-- Loading the lines in turn.
unfoldable pub load_lines : (Bytes → ℤ) → Bool → List Bytes → Variables → Run Variables
load_lines atoi errs_fatal [] c = ok c
load_lines atoi errs_fatal (l ∷ ls) c = do
  skipped ← is_skipped l
  c' ← load_line atoi skipped l c errs_fatal
  load_lines atoi errs_fatal ls c'

bind-ext :
    {A B : Type 0} (r : Run A) (f g : A → Run B) → ((a : A) → f a ≡ g a) → (r >>= f) ≡ (r >>= g)
bind-ext (stop why) f g h = refl
bind-ext (ok a) f g h = h a

module _ (atoi : Bytes → ℤ) (errs_fatal : Bool) (s : Bytes) where
  -- A round of the loop on a line.
  conf_round :
      (f p after : ℕ) (l : Bytes) (c : Variables)
      → str_getline s p ≡ ok (record { result = true; line_str = l; pos = after })
      → conf_loop atoi (suc f) s p errs_fatal c ≡ (
          is_skipped l >>= λ skipped.
          load_line atoi skipped l c errs_fatal >>= λ c'. conf_loop atoi f s after errs_fatal c')
  unfolding conf_loop
  conf_round f p after l c e = rw e refl

  -- The loop loads the lines of the rest.
  pub loop-lines :
      (f p : ℕ) (u : Bytes) (c : Variables)
      → drop p s ≡ u
      → p ≤ length s
      → length s - p < f
      → conf_loop atoi f s p errs_fatal c ≡ load_lines atoi errs_fatal (lines u) c
  unfolding load_lines
  loop-lines zero p u c e h fuel = absurd (omega arith)
  loop-lines (suc f) p [] c e h fuel = unfold conf_loop lines in rw (getline-end s p h e) refl
  loop-lines (suc f) p (x ∷ u) c e h fuel =
      let r = getline-Reads s p x u e in
      let l = first_line (x ∷ u) in
      let rest : (c' : Variables)
          → conf_loop atoi f s r.after errs_fatal c'
            ≡ load_lines atoi errs_fatal (lines (after_line (x ∷ u))) c' =
        λ c'.
          loop-lines f r.after (after_line (x ∷ u)) c' r.rest r.inside
            (omega (arith, r.moves, r.inside)) in
      conf_round f p r.after l c r.reads
      ∙ bind-ext (is_skipped l) _ _
          (λ skipped. bind-ext (load_line atoi skipped l c errs_fatal) _ _ rest)
      ∙ ap (λ ls. load_lines atoi errs_fatal ls c) (sym (lines-cons x u))

-- What a file has in its lines.
pub data Entry : Type 0 where
  setting : Setting → Entry
  comment : Bytes → Entry
  blank : Entry

abbrev pub line_of : (ℕ → Bytes) → Entry → Bytes
line_of digits (setting e) = written digits e
line_of digits (comment t) = b'#' ∷ t
line_of digits blank = []

-- The settings take effect in their order.
abbrev pub all_assigned : List Entry → Variables → Variables
all_assigned [] c = c
all_assigned (setting e ∷ es) c = all_assigned es (assigned e c)
all_assigned (comment t ∷ es) c = all_assigned es c
all_assigned (blank ∷ es) c = all_assigned es c

abbrev pub IsEntry : (Bytes → ℤ) → (ℕ → Bytes) → Entry → Type 0
IsEntry atoi digits (setting e) = IsSetting atoi digits e
IsEntry atoi digits (comment t) = Free newline t
IsEntry atoi digits blank = Unit

abbrev pub AllEntries : (Bytes → ℤ) → (ℕ → Bytes) → List Entry → Type 0
AllEntries atoi digits [] = Unit
AllEntries atoi digits (e ∷ es) = IsEntry atoi digits e × AllEntries atoi digits es

Free-append : (d : ℕ) (a b : Bytes) → Free d a → Free d b → Free d (a ++ b)
Free-append d [] b h k = k
Free-append d (x ∷ a) b (p, h) k = (p, Free-append d a b h k)

pair-Free : (name v : Bytes) → IsName name → Free newline v → Free newline (name ++ (b'=' ∷ v))
pair-Free [] v h k = cc
pair-Free (x ∷ s) v (_, _, _, (_, free)) k =
    Free-append newline (x ∷ s) (b'=' ∷ v) free ((λ e. absurd (omega (arith, e))), k)

name-not_skipped : (name v : Bytes) → IsName name → is_skipped (name ++ v) ≡ ok false
unfolding is_skipped str_isempty str_get_char_at str_all_space
name-not_skipped [] v h = cc
name-not_skipped (x ∷ s) v (space, mark, _, _) =
    let n = length (s ++ v) in
    let some_left : (suc n == 0) ≡ false = ground arith in
    let inside : leb (suc n) 0 ≡ false = ground arith in
    rw (some_left, inside) (rw (mark, space) refl)

module _ (atoi : Bytes → ℤ) (digits : ℕ → Bytes) where
  setting-Free : (e : Setting) → IsSetting atoi digits e → Free newline (written digits e)
  setting-Free (words name v) (h, k, _) = pair-Free name v h (value-InLine v k).1
  setting-Free (flag name b) (h, _, _) = pair-Free name (yes_no b) h (yes_no-InLine b).1
  setting-Free (number name n) (h, k, _, _, _) =
      pair-Free name (digits n) h (decimal-InLine atoi (digits n) n k).1

  setting-not_skipped :
      (e : Setting) → IsSetting atoi digits e → is_skipped (written digits e) ≡ ok false
  setting-not_skipped (words name v) (h, _, _) = name-not_skipped name (b'=' ∷ v) h
  setting-not_skipped (flag name b) (h, _, _) = name-not_skipped name (b'=' ∷ yes_no b) h
  setting-not_skipped (number name n) (h, _, _, _, _) = name-not_skipped name (b'=' ∷ digits n) h

  comment-skipped : (t : Bytes) → is_skipped (b'#' ∷ t) ≡ ok true
  unfolding is_skipped str_isempty str_get_char_at
  comment-skipped t =
      let some_left : (suc (length t) == 0) ≡ false = ground arith in
      let inside : leb (suc (length t)) 0 ≡ false = ground arith in rw (some_left, inside) refl

  blank-skipped : is_skipped [] ≡ ok true
  unfolding is_skipped str_isempty
  blank-skipped = refl

  entries-Free : (es : List Entry) → AllEntries atoi digits es → AllFree (map (line_of digits) es)
  entries-Free [] h = tt
  entries-Free (setting e ∷ es) (h, k) = (setting-Free e h, entries-Free es k)
  entries-Free (comment t ∷ es) (h, k) = (((λ e. absurd (omega (arith, e))), h), entries-Free es k)
  entries-Free (blank ∷ es) (h, k) = (tt, entries-Free es k)

  module _ (errs_fatal : Bool) where
    lines-assigned :
        (es : List Entry) (c : Variables)
        → AllEntries atoi digits es
        → load_lines atoi errs_fatal (map (line_of digits) es) c ≡ ok (all_assigned es c)
    unfolding load_lines
    lines-assigned [] c h = refl
    lines-assigned (setting e ∷ es) c (h, k) = rw (setting-not_skipped e h) (
        rw (load_setting-written atoi errs_fatal c digits e h) (lines-assigned es (assigned e c) k))
    lines-assigned (comment t ∷ es) c (h, k) = rw (comment-skipped t) (lines-assigned es c k)
    lines-assigned (blank ∷ es) c (h, k) = rw blank-skipped (lines-assigned es c k)

-- A file of settings, comments and empty lines that is written for them, and that belongs to the
-- user, is read back: in their order the settings take effect, and nothing else changes. The
-- process does not end, whether or not errors are fatal.
pub load_file-written :
    (m : Machine) (digits : ℕ → Bytes) (es : List Entry) (name : Bytes) (saved : Option Bytes)
    (errs_fatal : Bool) (c : Variables)
    → AllEntries m.atoi digits es
    → str_fileread m.files name conf_file_max ≡ ok (some (with_newlines (map (line_of digits) es)))
    → is_owned (m.stat name) m.getuid ≡ true
    → vsf_parseconf_load_file m (some name) saved errs_fatal c ≡ ok (some name, all_assigned es c)
unfolding vsf_parseconf_load_file load_named load_text
load_file-written m digits es name saved errs_fatal c h read owned =
    let s = with_newlines (map (line_of digits) es) in
    let same = lines-with_newlines (map (line_of digits) es) (entries-Free m.atoi digits es h) in
    let loaded : conf_loop m.atoi (suc (length s)) s 0 errs_fatal c ≡ ok (all_assigned es c) =
      loop-lines m.atoi errs_fatal s (suc (length s)) 0 s c refl (omega arith) (omega arith)
      ∙ ap (λ ls. load_lines m.atoi errs_fatal ls c) same
      ∙ lines-assigned m.atoi digits errs_fatal es c h in
    rw read (rw owned (rw loaded refl))
