-- ===== src/Postlogin/Dispatch/Names.antt =====
-- postlogin.c, `process_post_login`: the lists of commands that are allowed and denied.
use dragonsunited_minecraft.Base.{
  ℕ, zero, suc, ◌<◌, Bool, true, false, not, ◌&&◌, ◌||◌, List, [], ◌∷◌, Option, none, some, ◌≡◌,
  inl, inr, refl, arith, ◌==◌, if◌then◌else◌, length, Bytes, Bool-cases,
}
use dragonsunited_minecraft.Ipaddr.Groups.{after-none}
use dragonsunited_minecraft.Postlogin.Dispatch.{
  no_permission, handler_of, list_loop, in_list, allowed_by, denied_by, cmd_ok, process_command,
}
use dragonsunited_minecraft.Run.{ok}
use dragonsunited_minecraft.Session.{Tunables, Session}
use dragonsunited_minecraft.Str.Text.{str_isempty, str_equal}
use dragonsunited_minecraft.Str.Text.Split.{
  before, after, has, str_split_char-parts, length-after, isempty_empty,
}

-- The pieces of a text between the places of a character.
abbrev onto : ℕ → List Bytes → List Bytes
onto x [] = (x ∷ []) ∷ []
onto x (p ∷ ps) = (x ∷ p) ∷ ps

unfoldable pub fields : ℕ → Bytes → List Bytes
fields c [] = [] ∷ []
fields c (x ∷ s) = let rest = fields c s in if x == c then [] ∷ rest else onto x rest

-- The name is one of the pieces before the first that is empty.
unfoldable pub listed : Bytes → List Bytes → Bool
listed name [] = false
listed name (p ∷ ps) =
    let rest = listed name ps in if str_isempty p then false else str_equal p name || rest

-- What the settings say of a name; a list that is not set lets every name through.
unfoldable pub allows : Tunables → Bytes → Bool
unfolding fields listed
allows t name =
    let allowed : Bool = elim t.cmds_allowed [
      | none ↦ true
      | some names ↦ listed name (fields b',' names)
    ] in
    let denied : Bool = elim t.cmds_denied [
      | none ↦ false
      | some names ↦ listed name (fields b',' names)
    ] in
    allowed && not denied

abbrev behind : ℕ → Bytes → List Bytes
behind c s = let rest = fields c (after c s) in if has c s then rest else []

fields-before : (c : ℕ) (s : Bytes) → fields c s ≡ before c s ∷ behind c s
unfolding fields before after has
fields-before c [] = refl
fields-before c (x ∷ s) = elim (Bool-cases (x == c)) [
  | inl e ↦ rw e refl
  | inr e ↦ rw e (rw (fields-before c s) refl)
]

-- Without a further separator the loop goes on with the empty text, which ends it as well.
listed-behind :
    (name : Bytes) (c : ℕ) (s : Bytes)
    → listed name (behind c s) ≡ listed name (fields c (after c s))
unfolding listed
listed-behind name c s = elim (Bool-cases (has c s)) [
  | inl e ↦ rw e refl
  | inr e ↦ rw (e, after-none c s e) (unfold fields in rw isempty_empty refl)
]

list_loop_end :
    (f : ℕ) (name : Bytes) → list_loop (suc f) [] name ≡ ok (listed name (fields b',' []))
unfolding list_loop listed fields before
list_loop_end f name = rw (str_split_char-parts [] b',' (omega arith)) (rw isempty_empty refl)

round_lem :
    (b e : Bool) (n : Bool)
    → (if b then ok false else if e then ok true else ok n) ≡ ok (if b then false else e || n)
round_lem true e n = refl
round_lem false true n = refl
round_lem false false n = refl

list_loop-listed :
    (f : ℕ) (src name : Bytes)
    → length src < f
    → list_loop f src name ≡ ok (listed name (fields b',' src))
unfolding list_loop listed
list_loop-listed zero src name h = absurd (omega arith)
list_loop-listed (suc f) [] name h = list_loop_end f name
list_loop-listed (suc f) (x ∷ s) name h =
    let src = x ∷ s in
    let short : length (after b',' src) < f = omega (arith, length-after b',' x s) in
    rw (str_split_char-parts src b',' (omega arith), fields-before b',' src)
      (rw (list_loop-listed f (after b',' src) name short, listed-behind name b',' src)
        (round_lem (str_isempty (before b',' src)) (str_equal (before b',' src) name)
          (listed name (fields b',' (after b',' src)))))

pub in_list-listed : (src name : Bytes) → in_list src name ≡ ok (listed name (fields b',' src))
unfolding in_list
in_list-listed src name = list_loop-listed (suc (length src)) src name (omega arith)

allowed_by-listed :
    (names : Option Bytes) (name : Bytes)
    → allowed_by names name
      ≡ ok (elim names [ none ↦ true | some src ↦ listed name (fields b',' src) ])
unfolding allowed_by
allowed_by-listed none name = refl
allowed_by-listed (some src) name = in_list-listed src name

denied_by-listed :
    (names : Option Bytes) (name : Bytes)
    → denied_by names name
      ≡ ok (elim names [ none ↦ false | some src ↦ listed name (fields b',' src) ])
unfolding denied_by
denied_by-listed none name = refl
denied_by-listed (some src) name = in_list-listed src name

-- A command goes to its handler exactly where the settings' lists allow its name, of which each is
-- read up to its first empty piece; every command that they do not allow is refused. The loops end.
pub process_command-allows :
    (t : Tunables) (s : Session)
    → process_command t s ≡ ok (if allows t s.ftp_cmd_str then handler_of t s else no_permission)
unfolding process_command cmd_ok allows
process_command-allows t s =
    rw (allowed_by-listed t.cmds_allowed s.ftp_cmd_str)
      (rw (denied_by-listed t.cmds_denied s.ftp_cmd_str) refl)
