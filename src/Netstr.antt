-- ===== src/Netstr.antt =====
-- netstr.c: strings read from the network. A socket is a state with two calls, `vsf_sysutil_recv_peek`
-- and `vsf_sysutil_read_loop` or OpenSSL's, that are parameters: `none` is an error.
mod Search
pub mod Tests
pub mod Line
use dragonsunited_minecraft.Base.{
  ℕ, zero, suc, ◌+◌, ◌-◌, true, false, not, [], ◌∷◌, ◌++◌, Option, none, some, ltb, ◌==◌,
  if◌then◌else◌, length, drop, get_or, Bytes,
}
use dragonsunited_minecraft.Run.{Run, ok, stop, die, out_of_fuel, ◌>>=◌, ◌>>◌, bug_if, die_if}
use dragonsunited_minecraft.Str.Cut.{str_alloc_alt_term}

-- `str_netfd_read_t` for looking at what has come, and for taking it.
pub record Socket (S : Type 0) : Type 0 where
  pub peek : S → ℕ → Option Bytes × S
  pub read : S → ℕ → Option Bytes × S

-- `retval`, with `none` for -1, the string and the socket afterwards.
pub record Got (S : Type 0) : Type 0 where
  pub retval : Option ℕ
  pub str : Bytes
  pub socket : S

abbrev pub one_more : Option ℕ → Option ℕ
one_more none = none
one_more (some i) = some (suc i)

-- The search of a chunk for the terminator.
unfoldable pub find_term : Bytes → ℕ → Option ℕ
find_term [] term = none
find_term (c ∷ cs) term =
    let later = one_more (find_term cs term) in if c == term then some 0 else later

-- What `p_readfunc` must return: no error, and as much as was asked for.
abbrev pub exactly : {S : Type 0} → ℕ → Option Bytes × S → Run (Bytes × S)
exactly n (none, s) = stop die
exactly n (some b, s) = do die_if (not (length b == n)); ok (b, s)

-- The string is taken from the start of the buffer, which also holds what was read before.
unfoldable pub take_line : {S : Type 0} → Socket S → ℕ → Bytes → Bytes → S → ℕ → Run (Got S)
take_line k term before chunk s i = do
  (b, s') ← exactly (suc i) (k.read s (suc i))
  die_if (not (get_or b i 0 == term))
  line ← str_alloc_alt_term (before ++ (b ++ drop (suc i) chunk)) term
  ok (record { retval = some i; str = line; socket = s' })

-- What `p_peekfunc` must return: something.
abbrev pub shown : {S : Type 0} → Option Bytes × S → Run (Bytes × S)
shown (none, s) = stop die
shown (some [], s) = stop die
shown (some (c ∷ cs), s) = ok (c ∷ cs, s)

module _ {S : Type 0} (k : Socket S) (term : ℕ) (maxlen : ℕ) where
  -- A round with what was shown, `left` being the room, and the loop after it.
  unfoldable pub netfd_round :
      (Bytes → S → Run (Got S)) → Bytes → ℕ → Option ℕ → Bytes → S → Run (Got S)
  unfolding take_line
  netfd_round again before left (some i) chunk s = take_line k term before chunk s i
  netfd_round again before left none chunk s = do
    bug_if (ltb left (length chunk))
    (b, s') ← exactly (length chunk) (k.read s (length chunk))
    again b s'

  -- The loop with the bytes that the buffer holds. Each round takes a byte at least.
  unfoldable pub netfd_loop : ℕ → Bytes → ℕ → S → Run (Got S)
  unfolding find_term netfd_round
  netfd_loop zero before left s = stop out_of_fuel
  netfd_loop (suc f) before zero s = do
    bug_if (not (length before + zero == maxlen))
    ok (record { retval = none; str = []; socket = s })
  netfd_loop (suc f) before (suc l) s = do
    let again : Bytes → S → Run (Got S) = λ b s'. netfd_loop f (before ++ b) (suc l - length b) s'
    bug_if (not (length before + suc l == maxlen))
    (chunk, s') ← shown (k.peek s (suc l))
    netfd_round again before (suc l) (find_term chunk term) chunk s'

  unfoldable pub str_netfd_alloc : S → Run (Got S)
  unfolding netfd_loop
  str_netfd_alloc s = netfd_loop (suc maxlen) [] maxlen s
