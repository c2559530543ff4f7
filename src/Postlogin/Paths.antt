-- ===== src/Postlogin/Paths.antt =====
-- postlogin.c: `resolve_tilde` and `prepend_path_to_filename`.
pub mod Meaning
use dragonsunited_minecraft.Base.{
  ℕ, ◌+◌, ◌-◌, Bool, true, false, not, ◌&&◌, ◌||◌, List, [], ◌∷◌, ◌++◌, Option, none, some, ltb,
  ◌==◌, if◌then◌else◌, length, Bytes, text,
}
use dragonsunited_minecraft.Run.{Run, ok, ◌>>=◌, ◌>>◌}
use dragonsunited_minecraft.Session.{Tunables, Host, Session}
use dragonsunited_minecraft.Str.Cut.{str_get_char_at}
use dragonsunited_minecraft.Str.Text.{str_isempty, str_split_char}

module _ (t : Tunables) (h : Host) where
  -- `~` and `~/...`
  unfoldable pub own_home : Session → Bytes → Run Bytes
  own_home s str = do (lhs, rhs) ← str_split_char str b'~'; ok (s.home_str ++ rhs)

  unfoldable pub home_with : Bytes → Option Bytes → Bytes → Bytes
  home_with str none rest = str
  home_with str (some home) rest = if str_isempty rest then home else home ++ b'/' ∷ rest

  -- `~user` and `~user/...`
  unfoldable pub user_home : Bytes → Run Bytes
  unfolding home_with
  user_home str = do
    (lhs, named) ← str_split_char str b'~'
    (user, rest) ← str_split_char named b'/'
    ok (home_with str (h.home_of user) rest)

  unfoldable pub starts_with : ℕ → Bytes → Run Bool
  starts_with c str = do x ← str_get_char_at str 0; ok (x == c)

  -- The string's second character is a slash, or there is none.
  unfoldable pub own_tilde : Bytes → Run Bool
  own_tilde str =
      let second : Run Bool = (do x ← str_get_char_at str 1; ok (x == b'/')) in
      if length str == 1 then ok true else second

  unfoldable pub after_tilde : Session → Bytes → Bool → Run Bytes
  unfolding own_home user_home
  after_tilde s str own =
      if own
      then own_home s str
      else if t.tilde_user_enable && ltb 1 (length str)
      then user_home str
      else ok str

  unfoldable pub resolve_tilde : Session → Bytes → Run Bytes
  unfolding starts_with own_tilde after_tilde
  resolve_tilde s str =
      let with_tilde : Run Bytes = (do own ← own_tilde str; after_tilde s str own) in
      let test : Run Bytes = (do b ← starts_with b'~' str; if b then with_tilde else ok str) in
      if ltb 0 (length str) then test else ok str

  -- The working directory with one slash at its end.
  unfoldable pub with_slash : Bytes → Run Bytes
  with_slash cwd =
      let test : Run Bytes = (do
        c ← str_get_char_at cwd (length cwd - 1)
        ok (if c == b'/' then cwd else cwd ++ b'/' ∷ [])) in
      if str_isempty cwd then ok (cwd ++ b'/' ∷ []) else test

  unfoldable pub prepend_path_to_filename : Session → Bytes → Run Bytes
  unfolding with_slash starts_with
  prepend_path_to_filename s str =
      let relative : Run Bytes = (do dir ← with_slash (h.getcwd s.events); ok (dir ++ str)) in
      let test : Run Bytes = (do b ← starts_with b'/' str; if b then ok str else relative) in
      if str_isempty str then relative else test
