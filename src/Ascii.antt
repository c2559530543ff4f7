-- ===== src/Ascii.antt =====
-- ascii.c: the line ends of a transfer in ASCII mode. The input is the list of the bytes of one
-- read. `ascii_to_bin` writes into its own buffer, which starts one byte before the input: the
-- buffer is a list here, written in place.
pub mod Stream
pub mod InPlace
pub mod RoundTrip
mod Tests
use dragonsunited_minecraft.Base.{
  ℕ, zero, suc, ◌+◌, ◌-◌, Bool, true, false, not, ◌&&◌, ◌||◌, List, [], ◌∷◌, ◌++◌, ◌==◌,
  if◌then◌else◌, length, drop, take, set, get_or, Bytes,
}

abbrev pub cr : ℕ
cr = 13

abbrev pub lf : ℕ
lf = 10

-- `struct ascii_to_bin_ret`: where the output starts in the buffer, and how much there is.
pub record AsciiToBinRet : Type 0 where
  pub stored : ℕ
  pub last_was_cr : Bool
  pub p_buf : ℕ

-- The variables of the loop: the buffer, the index of `p_out`, `written` and `last_was_cr`.
pub record BinLoop : Type 0 where
  pub buffer : Bytes
  pub out : ℕ
  pub written : ℕ
  pub was_cr : Bool

-- `*p_out++ = the_char; written++;`
unfoldable pub put : BinLoop → ℕ → BinLoop
put s c = record s { buffer = set s.buffer s.out c; out = s.out + 1; written = s.written + 1 }

-- One round at `indexx`.
unfoldable pub bin_round : ℕ → ℕ → BinLoop → BinLoop
unfolding put
bin_round in_len indexx s =
    let the_char = get_or s.buffer (indexx + 1) 0 in
    if not (the_char == cr)
    then put s the_char
    else if indexx == in_len - 1
    then record s { was_cr = true }
    else if not (get_or s.buffer (indexx + 2) 0 == lf)
    then put s the_char
    else s

-- The rounds that are left, from `indexx` on.
unfoldable pub bin_loop : ℕ → ℕ → ℕ → BinLoop → BinLoop
unfolding bin_round
bin_loop zero in_len indexx s = s
bin_loop (suc n) in_len indexx s = bin_loop n in_len (suc indexx) (bin_round in_len indexx s)

-- The buffer before is one byte, which may be anything, and the input.
unfoldable pub vsf_ascii_ascii_to_bin : Bytes → ℕ → Bool → Bytes × AsciiToBinRet
unfolding bin_loop
vsf_ascii_ascii_to_bin p_buf in_len prev_cr =
    let flush = prev_cr && (in_len == 0 || not (get_or p_buf 1 0 == lf)) in
    let s = bin_loop in_len in_len 0 (record {
      buffer = if flush then set p_buf 0 cr else p_buf;
      out = 1;
      written = if flush then 1 else 0;
      was_cr = false;
    }) in
    (
      s.buffer,
      record { stored = s.written; last_was_cr = s.was_cr; p_buf = if flush then 0 else 1 },
    )

-- `struct bin_to_ascii_ret`, with the bytes that are stored.
pub record BinToAscii : Type 0 where
  pub stored : Bytes
  pub last_was_cr : Bool

-- The loop, with `last_char` as whether it is a carriage return, and what is stored behind.
unfoldable pub ascii_loop : Bool → Bytes → BinToAscii
ascii_loop was_cr [] = record { stored = []; last_was_cr = was_cr }
ascii_loop was_cr (c ∷ cs) =
    let rest = ascii_loop (c == cr) cs in
    let here = if c == lf && not was_cr then cr ∷ c ∷ [] else c ∷ [] in
    record { stored = here ++ rest.stored; last_was_cr = rest.last_was_cr }

unfoldable pub vsf_ascii_bin_to_ascii : Bytes → Bool → BinToAscii
unfolding ascii_loop
vsf_ascii_bin_to_ascii input prev_cr = ascii_loop prev_cr input
