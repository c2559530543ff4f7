-- ===== src/Standalone/Counts.antt =====
-- The table of counts against a number for each address.
use dragonsunited_minecraft.Base.{
  ℕ, zero, suc, ◌+◌, ◌-◌, ◌%◌, ◌<◌, Bool, true, false, Option, none, some, ◌≡◌, refl, ap, ◌∙◌,
  arith, ◌==◌, if◌then◌else◌, Bytes, bytes_eq, bytes_eq_refl,
}
use dragonsunited_minecraft.Run.{ok}
use dragonsunited_minecraft.Hash.{Hash, hash_free_entry, write_value}
use dragonsunited_minecraft.Hash.Table.{
  IsTable, view, Updates, lookup_entry-view, add_entry-Updates, free_entry-Updates,
  write_value-Updates,
}
use dragonsunited_minecraft.Standalone.{
  uint_mod, ip_key, counted, dropped, handle_ip_count, drop_ip_count,
}

-- An address with no session has no entry.
abbrev pub listed : ℕ → Option ℕ
listed zero = none
listed (suc n) = some (suc n)

-- The table holds the number `t a` for every address `a`.
pub record Counts (h : Hash Bytes ℕ) (t : Bytes → ℕ) : Type 0 where
  pub table : IsTable h
  pub counts : (a : Bytes) → view h a ≡ listed (t a)

-- The numbers with another one for `ip`.
abbrev pub changed : (Bytes → ℕ) → Bytes → ℕ → Bytes → ℕ
changed t ip n a = if bytes_eq a ip then n else t a

listed-changed :
    (b : Bool) (m n : ℕ) → (if b then listed n else listed m) ≡ listed (if b then n else m)
listed-changed true m n = refl
listed-changed false m n = refl

twice :
    (b : Bool) (o : Option ℕ)
    → (if b then none else (if b then some 0 else o)) ≡ (if b then none else o)
twice true o = refl
twice false o = refl

Updates-Counts :
    {h h' : Hash Bytes ℕ} {t : Bytes → ℕ} (ip : Bytes) (n : ℕ) {o : Option ℕ}
    → Counts h t
    → o ≡ listed n
    → Updates h ip o h'
    → Counts h' (changed t ip n)
Updates-Counts {t = t} ip n c e u = record {
  table = u.table;
  counts = λ a. u.reads a ∙ rw (e, c.counts a) (listed-changed (bytes_eq a ip) (t a) n);
}

module _ (h : Hash Bytes ℕ) (t : Bytes → ℕ) (c : Counts h t) (ip : Bytes) where
  counted_lem :
      (n : ℕ)
      → t ip ≡ n
      → n + 1 < uint_mod
      → (h' : Hash Bytes ℕ) × (counted h ip (listed n) ≡ ok (suc n, h'))
        × Counts h' (changed t ip (suc n))
  unfolding counted
  counted_lem zero e lt =
      let (h', run, u) = add_entry-Updates h c.table ip 1 (c.counts ip ∙ ap listed e) in
      (h', rw run, Updates-Counts ip 1 c refl u)
  counted_lem (suc n) e lt =
      let count : (suc n + 1) % uint_mod ≡ suc (suc n) = omega arith in
      let (h', run, u) =
        write_value-Updates h c.table ip (suc (suc n)) (c.counts ip ∙ ap listed e) in
      (h', rw (count, run), Updates-Counts ip (suc (suc n)) c refl u)

  -- `handle_ip_count` counts one more for the address and returns the new number.
  pub handle_ip_count-Counts :
      t ip + 1 < uint_mod
      → (h' : Hash Bytes ℕ) × (handle_ip_count h ip ≡ ok (suc (t ip), h'))
        × Counts h' (changed t ip (suc (t ip)))
  unfolding handle_ip_count
  handle_ip_count-Counts lt =
      rw (lookup_entry-view h c.table ip, c.counts ip) (counted_lem (t ip) refl lt)

  dropped_lem :
      (n : ℕ)
      → t ip ≡ suc n
      → (h' : Hash Bytes ℕ) × (dropped h ip (listed (suc n)) ≡ ok h') × Counts h' (changed t ip n)
  unfolding dropped
  dropped_lem n e =
      let present : view h ip ≡ some (suc n) = c.counts ip ∙ ap listed e in
      let pred : suc n - 1 ≡ n = omega arith in
      let pos : suc n == 0 ≡ false = ground arith in
      let (w, run, u) = write_value-Updates h c.table ip n present in
      rw (pos, pred, run) (finish n w run u)
    where
      finish :
          (n : ℕ) (w : Hash Bytes ℕ)
          → write_value h ip n ≡ ok w
          → Updates h ip (some n) w
          → (h' : Hash Bytes ℕ) × ((if n == 0 then hash_free_entry w ip else ok w) ≡ ok h')
            × Counts h' (changed t ip n)
      finish (suc m) w run u =
          let pos : suc m == 0 ≡ false = ground arith in
          (w, rw pos, Updates-Counts ip (suc m) c refl u)
      finish zero w run u =
          let there : view w ip ≡ some 0 = u.reads ip ∙ rw (bytes_eq_refl ip) in
          let (h', freed, u') = free_entry-Updates w u.table ip there in
          (
            h',
            freed,
            record {
              table = u'.table;
              counts = λ a.
                  u'.reads a
                  ∙ rw (u.reads a) (
                      twice (bytes_eq a ip) (view h a)
                      ∙ rw (c.counts a) (listed-changed (bytes_eq a ip) (t a) 0));
            },
          )

  -- `drop_ip_count` takes one from an address that has a session, and forgets an address with none
  -- left.
  pub drop_ip_count-Counts :
      (n : ℕ)
      → t ip ≡ suc n
      → (h' : Hash Bytes ℕ) × (drop_ip_count h ip ≡ ok h') × Counts h' (changed t ip n)
  unfolding drop_ip_count
  drop_ip_count-Counts n e = rw (lookup_entry-view h c.table ip, c.counts ip, e) (dropped_lem n e)
