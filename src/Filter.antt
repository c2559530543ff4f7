-- ===== src/Filter.antt =====
-- ls.c, `vsf_filename_passes_filter`, and access.c: file names against a pattern with the wildcards
-- `*` and `?` and lists in braces. `iters` is passed on and returned, as the code passes a pointer
-- to it, and bounds the rounds of the outer loop over all recursive calls.
pub mod Pieces
pub mod Ends
mod Tests
use dragonsunited_minecraft.Base.{
  ℕ, zero, suc, ◌+◌, ◌-◌, Bool, true, false, not, ◌&&◌, ◌||◌, List, [], ◌∷◌, ◌++◌, Option, none,
  some, ltb, ◌==◌, if◌then◌else◌, length, Bytes, text,
}
use dragonsunited_minecraft.Run.{Run, ok, stop, out_of_fuel, ◌>>=◌, ◌>>◌}
use dragonsunited_minecraft.Str.Cut.{str_left, str_right, str_mid_to_end, str_get_char_at}
use dragonsunited_minecraft.Str.Text.{
  LocateResult, str_isempty, str_locate_chars, str_locate_str, str_locate_char, str_split_char,
}

abbrev pub iters_max : ℕ
iters_max = 1000

-- The next piece of the filter: what to match, the rest, and the token, 0 at the end.
unfoldable pub next_piece : Bytes → Run (Bytes × (Bytes × ℕ))
next_piece filter =
    let r = str_locate_chars filter (text "*?{") in
    let cut = (do
      needed ← str_left filter r.index
      rest ← str_mid_to_end filter (r.index + 1)
      ok (needed, (rest, r.char_found))) in
    if r.found then cut else ok (filter, ([], 0))

-- The scan for the last place further along; each round drops the text found.
unfoldable pub scan_loop : ℕ → Bytes → Bytes → ℕ → Run ℕ
scan_loop zero scan_fwd needed indexx = stop out_of_fuel
scan_loop (suc f) scan_fwd needed indexx =
    let r = str_locate_str scan_fwd needed in
    let on = (do
      t ← str_mid_to_end scan_fwd (r.index + length needed)
      scan_loop f t needed (indexx + (r.index + length needed))) in
    if r.found then on else ok indexx

-- The name behind the text that is needed; `none` where it does not match.
unfoldable pub match_needed : Bytes → Bytes → Bool → Run (Option Bytes)
unfolding scan_loop
match_needed name needed must_match =
    let r = str_locate_str name needed in
    let greedy = (do
      scan_fwd ← str_mid_to_end name (r.index + length needed)
      scan_loop (suc (length name)) scan_fwd needed r.index) in
    let chopped = (do
      indexx ← (if must_match then ok r.index else greedy)
      t ← str_mid_to_end name (indexx + length needed)
      ok (some t)) in
    if str_isempty needed
    then ok (some name)
    else if not r.found
    then ok none
    else if must_match && ltb 0 r.index
    then ok none
    else chopped

-- The loop over the list in braces, with the recursive call as a parameter.
unfoldable pub brace_loop :
    ℕ → (Bytes → ℕ → Run (Bool × ℕ)) → Bytes → Bytes → Bytes → ℕ → Run (Bool × ℕ)
brace_loop zero passes brace_list temp remain iters = stop out_of_fuel
brace_loop (suc f) passes brace_list temp remain iters =
    let next : ℕ → Run (Bool × ℕ) = λ i. (do
      (item, others) ← str_split_char temp b','
      brace_loop f passes item others remain i) in
    let round = (do
      (ret, iters') ← passes (brace_list ++ remain) iters
      if ret then ok (true, iters') else next iters') in
    if str_isempty brace_list then ok (false, iters) else round

-- The branch of a closed list: the filter's list and what is behind it.
unfoldable pub braces : (Bytes → ℕ → Run (Bool × ℕ)) → Bytes → ℕ → Run (Bool × ℕ)
unfolding brace_loop
braces passes filter iters = do
  (list, remain) ← str_split_char filter b'}'
  (item, others) ← str_split_char list b','
  brace_loop (suc (suc (length list))) passes item others remain iters

-- What follows the loop.
unfoldable pub finish : Bytes → ℕ → ℕ → Bool × ℕ
finish name last_token iters =
    if ltb 0 (length name) && not (last_token == b'*')
    then (false, iters)
    else (not (iters == iters_max), iters)

-- The outer loop on a filter, a name, whether the match is at the current position, the last token
-- and the count, as the functions of one round call it.
abbrev pub Loop : Type 0
Loop = Bytes → Bytes → Bool → ℕ → ℕ → Run (Bool × ℕ)

-- `last_token == '?'`
unfoldable pub question : Loop → Bytes → Bytes → ℕ → Run (Bool × ℕ)
question loop name rest iters =
    let on : Run (Bool × ℕ) = (do
      t ← str_right name (length name - 1)
      loop rest t true b'?' iters) in
    if str_isempty name then ok (false, iters) else on

-- `last_token == '{'` with no `}` behind it: the brace stands for itself.
unfoldable pub open_brace : Loop → Bytes → Bytes → ℕ → Run (Bool × ℕ)
open_brace loop name rest iters =
    let on : Run (Bool × ℕ) = (do
      t ← str_right name (length name - 1)
      loop rest t true b'{' iters) in
    let test : Run (Bool × ℕ) = (do
      c ← str_get_char_at name 0
      if c == b'{' then on else ok (false, iters)) in
    if str_isempty name then ok (false, iters) else test

unfoldable pub brace : Loop → Bytes → Bytes → ℕ → Run (Bool × ℕ)
unfolding braces open_brace
brace loop name rest iters =
    if (str_locate_char rest b'}').found
    then braces (λ g i. loop g name true 0 i) rest iters
    else open_brace loop name rest iters

-- What follows the match of a piece; `none` is a name that does not match.
unfoldable pub next_token : Loop → Option Bytes → Bytes → ℕ → ℕ → Run (Bool × ℕ)
unfolding question brace
next_token loop none rest token iters = ok (false, iters)
next_token loop (some name) rest token iters =
    if token == b'?'
    then question loop name rest iters
    else if token == b'{'
    then brace loop name rest iters
    else loop rest name false token iters

unfoldable pub filter_round : Loop → Bytes → Bytes → Bool → ℕ → Run (Bool × ℕ)
unfolding next_piece match_needed next_token
filter_round loop filter name must_match iters = do
  (needed, (rest, token)) ← next_piece filter
  m ← match_needed name needed must_match
  next_token loop m rest token (suc iters)

-- The outer loop with the remaining filter and name.
unfoldable pub filter_loop : ℕ → Loop
unfolding filter_round finish
filter_loop zero filter name must_match last_token iters = stop out_of_fuel
filter_loop (suc f) filter name must_match last_token iters =
    let round = filter_round (filter_loop f) filter name must_match iters in
    if not (str_isempty filter) && ltb iters iters_max
    then round
    else ok (finish name last_token iters)

-- Each round and each recursive call comes after `iters` is raised, so the bound is fuel enough.
unfoldable pub vsf_filename_passes_filter : Bytes → Bytes → ℕ → Run (Bool × ℕ)
unfolding filter_loop
vsf_filename_passes_filter name filter iters = filter_loop (suc iters_max) filter name true 0 iters

-- `tunable_deny_file` and `tunable_hide_file`, with NULL as `none`.
denied : Bytes → Option Bytes → Run Bool
denied filename none = ok true
denied filename (some access) = do
  (ret, iters) ← vsf_filename_passes_filter filename access 0
  let r = str_locate_str filename access
  ok (not (ret || r.found))

unfoldable pub vsf_access_check_file : Option Bytes → Bytes → Run Bool
unfolding denied
vsf_access_check_file deny_file filename = denied filename deny_file

unfoldable pub vsf_access_check_file_visible : Option Bytes → Bytes → Run Bool
unfolding denied
vsf_access_check_file_visible hide_file filename = denied filename hide_file
