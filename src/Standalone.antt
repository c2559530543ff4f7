-- ===== src/Standalone.antt =====
-- standalone.c: the listener's account of its children, in all and for each address. A process id
-- is the number that the child's parent sees, and a raw address is the list of its bytes.
pub mod Sessions
pub mod Counts
pub mod Account
pub mod Trace
mod Tests
use Prim.Native.Nat.{bit_xor}
use dragonsunited_minecraft.Base.{
  ℕ, zero, suc, ◌+◌, ◌-◌, ◌*◌, ◌%◌, ◌^◌, List, [], ◌∷◌, Option, none, some, ◌==◌, if◌then◌else◌,
  Bytes, bytes_eq, bytes_eq_iff, ==_iff, Bool,
}
use dragonsunited_minecraft.Hash.{
  Key, Hash, hash_alloc, hash_lookup_entry, hash_add_entry, hash_free_entry, write_value,
}
use dragonsunited_minecraft.Run.{Run, ok, stop, bug, overrun, ◌>>=◌, ◌>>◌, bug_if}

abbrev pub uint_mod : ℕ
uint_mod = 2 ^ 32

instance abbrev pub pid_key : Key ℕ
pid_key = record { beq = ◌==◌; beq_iff = ==_iff }

instance abbrev pub ip_key : Key Bytes
ip_key = record { beq = bytes_eq; beq_iff = bytes_eq_iff }

-- The loop of `hash_ip`: `shift` is 24, 16, 8, 0 and 24 again.
hash_ip_loop : ℕ → ℕ → Bytes → ℕ
hash_ip_loop val shift [] = val
hash_ip_loop val shift (b ∷ bs) =
    hash_ip_loop (bit_xor val (b * 2 ^ shift % uint_mod)) (if shift == 0 then 24 else shift - 8) bs

unfoldable pub hash_ip : ℕ → Bytes → ℕ
unfolding hash_ip_loop
hash_ip buckets raw_ip = hash_ip_loop 0 24 raw_ip % buckets

unfoldable pub hash_pid : ℕ → ℕ → ℕ
hash_pid buckets pid = pid % buckets

-- The static variables.
pub record Listener : Type 0 where
  pub children : ℕ
  pub ip_count_hash : Hash Bytes ℕ
  pub pid_ip_hash : Hash ℕ Bytes

abbrev pub initial : Listener
initial = record {
  children = 0;
  ip_count_hash = hash_alloc 256 hash_ip;
  pid_ip_hash = hash_alloc 256 hash_pid;
}

counted : Hash Bytes ℕ → Bytes → Option ℕ → Run (ℕ × Hash Bytes ℕ)
counted h ip none = do h' ← hash_add_entry h ip 1; ok (1, h')
counted h ip (some n) = do
  let count = (n + 1) % uint_mod
  h' ← write_value h ip count
  ok (count, h')

unfoldable pub handle_ip_count : Hash Bytes ℕ → Bytes → Run (ℕ × Hash Bytes ℕ)
unfolding counted
handle_ip_count h ip = do r ← hash_lookup_entry h ip; counted h ip r

dropped : Hash Bytes ℕ → Bytes → Option ℕ → Run (Hash Bytes ℕ)
dropped h ip none = stop bug
dropped h ip (some n) = do
  bug_if (n == 0)
  let count = n - 1
  h' ← write_value h ip count
  if count == 0 then hash_free_entry h' ip else ok h'

unfoldable pub drop_ip_count : Hash Bytes ℕ → Bytes → Run (Hash Bytes ℕ)
unfolding dropped
drop_ip_count h ip = do r ← hash_lookup_entry h ip; dropped h ip r

-- What the fork returns.
pub data Fork : Type 0 where
  failed child : Fork
  parent : ℕ → Fork

-- `struct vsf_client_launch`
pub record ClientLaunch : Type 0 where
  pub num_children : ℕ
  pub num_this_ip : ℕ

forked : Listener → Bytes → ClientLaunch → Fork → Run (Listener × Option ClientLaunch)
forked s ip info (parent pid) = do
  h ← hash_add_entry s.pid_ip_hash pid ip
  ok (record s { pid_ip_hash = h }, none)
forked s ip info failed = do
  h ← drop_ip_count s.ip_count_hash ip
  ok (record s { children = (s.children + uint_mod - 1) % uint_mod; ip_count_hash = h }, none)
forked s ip info child = ok (s, some info)

-- One client that is accepted. The parent goes on listening; the child returns what it launches.
unfoldable pub accept_client : Listener → Bytes → Fork → Run (Listener × Option ClientLaunch)
unfolding forked
accept_client s ip fork = do
  let n = (s.children + 1) % uint_mod
  (this_ip, h) ← handle_ip_count s.ip_count_hash ip
  let t = record s { children = n; ip_count_hash = h }
  forked t ip (record { num_children = n; num_this_ip = this_ip }) fork

-- The address of a child that was reaped; an unknown child would make the code read through NULL.
reaped : Listener → ℕ → Option Bytes → Run Listener
reaped s pid none = stop overrun
reaped s pid (some ip) = do
  h ← drop_ip_count s.ip_count_hash ip
  g ← hash_free_entry s.pid_ip_hash pid
  ok (record {
    children = (s.children + uint_mod - 1) % uint_mod;
    ip_count_hash = h;
    pid_ip_hash = g;
  })

unfoldable pub reap_one : Listener → ℕ → Run Listener
unfolding reaped
reap_one s pid = do r ← hash_lookup_entry s.pid_ip_hash pid; reaped s pid r

-- The loop of `handle_sigchld` over the children that `vsf_sysutil_wait_reap_one` returns before 0.
unfoldable pub handle_sigchld : Listener → List ℕ → Run Listener
unfolding reap_one
handle_sigchld s [] = ok s
handle_sigchld s (pid ∷ pids) = do t ← reap_one s pid; handle_sigchld t pids
