-- ===== src/Standalone/Account.antt =====
-- The listener's account against the list of sessions.
use dragonsunited_minecraft.Base.{
  ℕ, suc, ◌+◌, ◌-◌, ◌%◌, ◌<◌, ◌∷◌, none, some, ◌≡◌, inl, inr, refl, sym, ap, ◌∙◌, arith, length,
  Bool-cases, Bytes, bytes_eq, bytes_eq_iff, bytes_eq_refl,
}
use dragonsunited_minecraft.Run.{ok}
use dragonsunited_minecraft.Hash.{Hash, find}
use dragonsunited_minecraft.Hash.Chain.{Distinct}
use dragonsunited_minecraft.Hash.Table.{IsTable, view, add_entry-Updates}
use dragonsunited_minecraft.Standalone.Counts.{
  Counts, changed, listed, handle_ip_count-Counts, drop_ip_count-Counts,
}
use dragonsunited_minecraft.Standalone.Sessions.{Sessions, tally, tally-le-length}
use dragonsunited_minecraft.Standalone.{
  handle_ip_count, uint_mod, pid_key, ip_key, Listener, failed, child, parent, accept_client,
}

-- The listener's variables say exactly which sessions are under way.
pub record Models (s : Listener) (l : Sessions) : Type 0 where
  pub all : s.children ≡ length l
  pub by_ip : Counts s.ip_count_hash (λ a. tally a l)
  pub pids : IsTable s.pid_ip_hash
  pub by_pid : (p : ℕ) → view s.pid_ip_hash p ≡ find p l
  pub distinct : Distinct l
  pub bounded : length l < uint_mod

pub Counts-congr :
    {h : Hash Bytes ℕ} {t u : Bytes → ℕ} → ((a : Bytes) → t a ≡ u a) → Counts h t → Counts h u
Counts-congr e c = record { table = c.table; counts = λ a. c.counts a ∙ ap listed (e a) }

tally-changed :
    (l : Sessions) (p : ℕ) (ip a : Bytes)
    → changed (λ x. tally x l) ip (suc (tally ip l)) a ≡ tally a ((p, ip) ∷ l)
tally-changed l p ip a = elim (Bool-cases (bytes_eq a ip)) [
  | inl e ↦ rw e (ap (λ (x : Bytes). suc (tally x l)) (sym ((bytes_eq_iff a ip).0 e)))
  | inr e ↦ rw e
]

tally-undone :
    (l : Sessions) (ip a : Bytes)
    → changed (changed (λ x. tally x l) ip (suc (tally ip l))) ip (tally ip l) a ≡ tally a l
tally-undone l ip a = elim (Bool-cases (bytes_eq a ip)) [
  | inl e ↦ rw e (ap (λ (x : Bytes). tally x l) (sym ((bytes_eq_iff a ip).0 e)))
  | inr e ↦ rw e
]

module _ (s : Listener) (l : Sessions) (m : Models s l) (ip : Bytes)
    (room : length l + 1 < uint_mod) where
  one_more : (s.children + 1) % uint_mod ≡ suc (length l)
  one_more = let e = m.all in omega arith

  counted_one :
      (h' : Hash Bytes ℕ) × (handle_ip_count s.ip_count_hash ip ≡ ok (suc (tally ip l), h'))
      × Counts h' (changed (λ x. tally x l) ip (suc (tally ip l)))
  counted_one =
      handle_ip_count-Counts s.ip_count_hash (λ a. tally a l) m.by_ip ip
        (omega (arith, tally-le-length ip l))

  -- A client whose child starts is one session more.
  pub accept-parent :
      (pid : ℕ)
      → find pid l ≡ none
      → (t : Listener) × (accept_client s ip (parent pid) ≡ ok (t, none)) × Models t ((pid, ip) ∷ l)
  unfolding accept_client
  accept-parent pid new =
      let (h, run, c) = counted_one in
      let (g, added, u) = add_entry-Updates s.pid_ip_hash m.pids pid ip (m.by_pid pid ∙ new) in
      (
        record { children = suc (length l); ip_count_hash = h; pid_ip_hash = g },
        rw (run, one_more, added),
        record {
          all = refl;
          by_ip = Counts-congr (tally-changed l pid ip) c;
          pids = u.table;
          by_pid = λ p. u.reads p ∙ unfold find in rw (m.by_pid p);
          distinct = (new, m.distinct);
          bounded = omega arith;
        },
      )

  -- A fork that fails leaves the account as it was.
  pub accept-failed : (t : Listener) × (accept_client s ip failed ≡ ok (t, none)) × Models t l
  unfolding accept_client
  accept-failed =
      let (h, run, c) = counted_one in
      let (g, undone, d) =
        drop_ip_count-Counts h (changed (λ x. tally x l) ip (suc (tally ip l))) c ip (tally ip l)
          (rw (bytes_eq_refl ip)) in
      let back : (suc (length l) + uint_mod - 1) % uint_mod ≡ length l = omega arith in
      (
        record s { children = length l; ip_count_hash = g },
        rw (run, one_more, undone, back),
        record {
          all = refl;
          by_ip = Counts-congr (tally-undone l ip) d;
          pids = m.pids;
          by_pid = m.by_pid;
          distinct = m.distinct;
          bounded = m.bounded;
        },
      )

  -- The child is told of all sessions and of those of its address, itself included.
  pub accept-child :
      (t : Listener) × (accept_client s ip child
        ≡ ok (t, some (record { num_children = suc (length l); num_this_ip = suc (tally ip l) })))
  unfolding accept_client
  accept-child =
      let (h, run, c) = counted_one in
      (record s { children = suc (length l); ip_count_hash = h }, rw (run, one_more))
