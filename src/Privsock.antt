-- ===== src/Privsock.antt =====
-- privsock.c: the messages between the two processes of a session. A stream holds all that the
-- other end has sent and that is not read yet; behind it stands the end of the stream, at which the
-- code dies. An `int` is its word of 32 bits, the lowest byte first. What the system would refuse to
-- send is not modelled, and a descriptor is passed with one byte, as sysdeputil.c does.
pub mod Wire
use dragonsunited_minecraft.Base.{
  ℕ, zero, suc, ◌+◌, ◌-◌, ◌*◌, ◌/◌, ◌%◌, ◌^◌, List, [], ◌∷◌, ◌++◌, ltb, ◌==◌, if◌then◌else◌, length,
  map, Bytes,
}
use dragonsunited_minecraft.Base.Int.{ℤ, pos, negsuc}
use dragonsunited_minecraft.Run.{Run, ok, stop, die, ◌>>=◌, ◌>>◌, bug_if, die_if}

pub data Item : Type 0 where
  byte : ℕ → Item
  -- a byte that carries a descriptor
  passed : ℕ → Item

abbrev pub Stream : Type 0
Stream = List Item

-- VSFTP_PRIVSOCK_MAXSTR
abbrev pub privsock_maxstr : ℕ
privsock_maxstr = 65536 * 2

-- A plain read takes the byte and drops a descriptor.
abbrev pub item_byte : Item → ℕ
item_byte (byte b) = b
item_byte (passed fd) = 0

abbrev pub read_item : Stream → Run (ℕ × Stream)
read_item [] = stop die
read_item (i ∷ q) = ok (item_byte i, q)

-- `vsf_sysutil_read_loop` of so many bytes, all of which must be there.
unfoldable pub read_items : ℕ → Stream → Run (Bytes × Stream)
read_items zero q = ok ([], q)
read_items (suc n) q = do (b, q') ← read_item q; (bs, q'') ← read_items n q'; ok (b ∷ bs, q'')

-- An `int` and its word.
unfoldable pub int_word : ℤ → ℕ
int_word (pos n) = n % 2 ^ 32
int_word (negsuc n) = 2 ^ 32 - suc (n % 2 ^ 32)

unfoldable pub int_of : ℕ → ℤ
int_of w = if ltb w (2 ^ 31) then pos w else negsuc (2 ^ 32 - suc w)

unfoldable pub int_bytes : ℕ → Bytes
int_bytes w = w % 256 ∷ (w / 256) % 256 ∷ (w / 65536) % 256 ∷ (w / 16777216) % 256 ∷ []

abbrev pub sends : Bytes → Stream
sends bs = map byte bs

unfoldable pub priv_sock_send_cmd : ℕ → Stream → Stream
priv_sock_send_cmd cmd q = q ++ (byte cmd ∷ [])

unfoldable pub priv_sock_send_result : ℕ → Stream → Stream
priv_sock_send_result res q = q ++ (byte res ∷ [])

unfoldable pub priv_sock_send_int : ℤ → Stream → Stream
unfolding int_word int_bytes
priv_sock_send_int the_int q = q ++ sends (int_bytes (int_word the_int))

unfoldable pub priv_sock_send_str : Bytes → Stream → Stream
unfolding priv_sock_send_int
priv_sock_send_str s q = priv_sock_send_int (pos (length s)) q ++ sends s

unfoldable pub priv_sock_send_buf : Bytes → Stream → Stream
unfolding priv_sock_send_int
priv_sock_send_buf buf q = priv_sock_send_int (pos (length buf)) q ++ sends buf

unfoldable pub priv_sock_send_fd : ℕ → Stream → Stream
priv_sock_send_fd fd q = q ++ (passed fd ∷ [])

unfoldable pub priv_sock_get_cmd : Stream → Run (ℕ × Stream)
priv_sock_get_cmd q = read_item q

unfoldable pub priv_sock_get_result : Stream → Run (ℕ × Stream)
priv_sock_get_result q = read_item q

-- The four bytes of a word.
unfoldable pub read_word : Stream → Run (ℕ × Stream)
read_word q = do
  (b0, q0) ← read_item q
  (b1, q1) ← read_item q0
  (b2, q2) ← read_item q1
  (b3, q3) ← read_item q2
  ok (b0 + 256 * b1 + 65536 * b2 + 16777216 * b3, q3)

unfoldable pub priv_sock_get_int : Stream → Run (ℤ × Stream)
unfolding int_of read_word
priv_sock_get_int q = do (w, q') ← read_word q; ok (int_of w, q')

-- The length is the same word taken as an `unsigned int`.
unfoldable pub priv_sock_get_str : Stream → Run (Bytes × Stream)
unfolding priv_sock_get_int int_word read_items
priv_sock_get_str q = do
  (n, q') ← priv_sock_get_int q
  die_if (ltb privsock_maxstr (int_word n))
  read_items (int_word n) q'

unfoldable pub priv_sock_recv_buf : ℕ → Stream → Run (Bytes × Stream)
unfolding priv_sock_get_int int_word read_items
priv_sock_recv_buf len q = do
  (n, q') ← priv_sock_get_int q
  bug_if (ltb len (int_word n))
  read_items (int_word n) q'

unfoldable pub priv_sock_recv_fd : Stream → Run (ℕ × Stream)
priv_sock_recv_fd [] = stop die
priv_sock_recv_fd (byte b ∷ q) = stop die
priv_sock_recv_fd (passed fd ∷ q) = ok (fd, q)
