-- ===== src/Standalone/Trace.antt =====
-- Sequences of clients and of children that end, in any order.
use mathlib.Core.Path.{subst}
use dragonsunited_minecraft.Base.{
  ℕ, suc, ◌+◌, ◌-◌, ◌%◌, ◌<◌, List, [], ◌∷◌, none, some, ◌≡◌, inl, inr, refl, sym, ap, ◌∙◌, arith,
  length, Bool-cases, Bytes, bytes_eq, bytes_eq_iff, bytes_eq_refl,
}
use dragonsunited_minecraft.Run.{Run, ok, ◌>>=◌}
use dragonsunited_minecraft.Hash.{find, unlink}
use dragonsunited_minecraft.Hash.Chain.{find-unlink, unlink-Distinct}
use dragonsunited_minecraft.Hash.Table.{
  IsTable, view, lookup_entry-view, free_entry-Updates, alloc-IsTable,
}
use dragonsunited_minecraft.Standalone.Account.{Models, Counts-congr, accept-parent, accept-failed}
use dragonsunited_minecraft.Standalone.Counts.{changed, drop_ip_count-Counts}
use dragonsunited_minecraft.Standalone.Sessions.{Sessions, tally, length-unlink, tally-unlink}
use dragonsunited_minecraft.Standalone.{
  uint_mod, pid_key, ip_key, Listener, initial, Fork, failed, parent, accept_client, reaped,
  reap_one, handle_sigchld, hash_ip, hash_pid,
}

tally-ended :
    (p : ℕ) (ip a : Bytes) (l : Sessions)
    → find p l ≡ some ip
    → changed (λ x. tally x l) ip (tally ip (unlink p l)) a ≡ tally a (unlink p l)
tally-ended p ip a l e = elim (Bool-cases (bytes_eq a ip)) [
  | inl h ↦ rw h (ap (λ (x : Bytes). tally x (unlink p l)) (sym ((bytes_eq_iff a ip).0 h)))
  | inr h ↦ rw h (tally-unlink p a l e ∙ rw h)
]

-- A child that ends is one session less, for the whole and for its address.
pub reap_one-Models :
    (s : Listener) (l : Sessions) (pid : ℕ) {ip : Bytes}
    → Models s l
    → find pid l ≡ some ip
    → (t : Listener) × (reap_one s pid ≡ ok t) × Models t (unlink pid l)
unfolding reap_one reaped
reap_one-Models s l pid {ip} m e =
    let present = m.by_pid pid ∙ e in
    let one : tally ip l ≡ suc (tally ip (unlink pid l)) =
      tally-unlink pid ip l e ∙ rw (bytes_eq_refl ip) in
    let (h, dropped, c) =
      drop_ip_count-Counts s.ip_count_hash (λ a. tally a l) m.by_ip ip (tally ip (unlink pid l))
        one in
    let (g, freed, u) = free_entry-Updates s.pid_ip_hash m.pids pid present in
    let less = length-unlink pid l e in
    let back : (s.children + uint_mod - 1) % uint_mod ≡ length (unlink pid l) =
      let a = m.all in let b = m.bounded in omega arith in
    (
      record { children = length (unlink pid l); ip_count_hash = h; pid_ip_hash = g },
      rw (lookup_entry-view s.pid_ip_hash m.pids pid, present, dropped, freed, back),
      record {
        all = refl;
        by_ip = Counts-congr (λ a. tally-ended pid ip a l e) c;
        pids = u.table;
        by_pid = λ p. u.reads p ∙ rw (m.by_pid p) (sym (find-unlink pid p l m.distinct));
        distinct = unlink-Distinct pid l m.distinct;
        bounded = let b = m.bounded in omega arith;
      },
    )

-- What happens to the listener: a client, with what its fork returns in the parent, or a SIGCHLD,
-- with the children that have ended by then.
pub data Event : Type 0 where
  client : Bytes → Fork → Event
  sigchld : List ℕ → Event

abbrev pub listen : Listener → Event → Run Listener
listen s (client ip fork) = do (t, launch) ← accept_client s ip fork; ok t
listen s (sigchld pids) = handle_sigchld s pids

unfoldable pub listen_all : Listener → List Event → Run Listener
listen_all s [] = ok s
listen_all s (e ∷ es) = do t ← listen s e; listen_all t es

-- The children of a list, all under way, that end one after another.
pub data Ends : Sessions → List ℕ → Sessions → Type 0 where
  all_ended : {l : Sessions} → Ends l [] l
  ended :
      {l r : Sessions} {pid : ℕ} {pids : List ℕ} (ip : Bytes)
      → find pid l ≡ some ip
      → Ends (unlink pid l) pids r
      → Ends l (pid ∷ pids) r

-- What the operating system does: a new child has a process id that no child has, and only
-- children that are under way end.
pub data Happens : Sessions → List Event → Sessions → Type 0 where
  nothing : {l : Sessions} → Happens l [] l
  started :
      {l r : Sessions} {es : List Event} (pid : ℕ) (ip : Bytes)
      → find pid l ≡ none
      → length l + 1 < uint_mod
      → Happens ((pid, ip) ∷ l) es r
      → Happens l (client ip (parent pid) ∷ es) r
  not_started :
      {l r : Sessions} {es : List Event} (ip : Bytes)
      → length l + 1 < uint_mod
      → Happens l es r
      → Happens l (client ip failed ∷ es) r
  reaps :
      {l m r : Sessions} {es : List Event} {pids : List ℕ}
      → Ends l pids m
      → Happens m es r
      → Happens l (sigchld pids ∷ es) r

pub sigchld-Models :
    {l r : Sessions} {pids : List ℕ} (s : Listener)
    → Models s l
    → Ends l pids r
    → (t : Listener) × (handle_sigchld s pids ≡ ok t) × Models t r
unfolding handle_sigchld
sigchld-Models s m all_ended = (s, refl, m)
sigchld-Models {l} s m (ended {pid = pid} ip e rest) =
    let (t, run, m') = reap_one-Models s l pid m e in
    let (u, later, m'') = sigchld-Models t m' rest in (u, rw run later, m'')

-- Over every sequence of clients and of children that end the listener reaches no `bug`, and its
-- counts are those of the sessions that are under way then, in all and for each address.
pub listen_all-Models :
    {l r : Sessions} {es : List Event} (s : Listener)
    → Models s l
    → Happens l es r
    → (t : Listener) × (listen_all s es ≡ ok t) × Models t r
unfolding listen_all
listen_all-Models s m nothing = (s, refl, m)
listen_all-Models {l} s m (started pid ip new room rest) =
    let (t, run, m') = accept-parent s l m ip room pid new in
    let (u, later, m'') = listen_all-Models t m' rest in (u, rw run later, m'')
listen_all-Models {l} s m (not_started ip room rest) =
    let (t, run, m') = accept-failed s l m ip room in
    let (u, later, m'') = listen_all-Models t m' rest in (u, rw run later, m'')
listen_all-Models s m (reaps ends rest) =
    let (t, run, m') = sigchld-Models s m ends in
    let (u, later, m'') = listen_all-Models t m' rest in (u, rw run later, m'')

-- The listener starts with no session.
pub initial-Models : Models initial []
initial-Models =
    let (h, e, table, empty) =
      alloc-IsTable {K = Bytes} {V = ℕ} 256 hash_ip (λ k. unfold hash_ip in omega arith) in
    let (g, f, table', empty') =
      alloc-IsTable {K = ℕ} {V = Bytes} 256 hash_pid (λ k. unfold hash_pid in omega arith) in
    record {
      all = refl;
      by_ip = record {
        table = subst IsTable e table;
        counts = λ a. subst (λ z. view z a ≡ none) e (empty a);
      };
      pids = subst IsTable f table';
      by_pid = λ p. subst (λ z. view z p ≡ none) f (empty' p) ∙ unfold find in refl;
      distinct = tt;
      bounded = omega arith;
    }
