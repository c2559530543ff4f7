-- ===== src/Netstr/Tests.antt =====
-- A line of a connection that shows three bytes at a time.
use dragonsunited_minecraft.Base.{
  ℕ, zero, suc, min, [], ◌∷◌, some, ◌≡◌, inr, refl, ap, arith, length, take, drop, Bytes, text,
}
use dragonsunited_minecraft.Netstr.{Socket, str_netfd_alloc}
use dragonsunited_minecraft.Netstr.Line.{Delivers, Ended, netfd_alloc-Ended}

abbrev pub by_three : Socket Bytes
by_three = record {
  peek = λ s n. (some (take (min n (min 3 (length s))) s), s);
  read = λ s n. (some (take n s), drop n s);
}

abbrev pub everything : Bytes → Bytes
everything s = s

nothing : (n : ℕ) → take n (let e : Bytes = [] in e) ≡ []
nothing zero = refl
nothing (suc n) = refl

shows : (s : Bytes) (n : ℕ) → s ≡ [] → take (min n (min 3 (length s))) s ≡ []
shows [] n e = nothing (min n (min 3 (length (let e : Bytes = [] in e))))
shows (x ∷ s) n e = cc

pub by_three-Delivers : Delivers by_three everything
by_three-Delivers = record {
  looks = λ s n h k. (min n (min 3 (length s)), omega arith, omega arith, omega arith, refl);
  keeps = λ s n. refl;
  ends = λ s n e. inr (ap some (shows s n e));
  yields = λ s n h. refl;
  moves = λ s n h. refl;
}

netfd_alloc-Ended_example :
    Ended everything b'\n'
      (str_netfd_alloc by_three b'\n' 16 (text "NOOP\nQUIT\n"))
      []
      16
      (text "NOOP\nQUIT\n")
netfd_alloc-Ended_example =
    netfd_alloc-Ended by_three everything by_three-Delivers b'\n' 16 (text "NOOP\nQUIT\n")
