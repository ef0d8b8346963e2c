-- ===== src/Sort/Heap.antt =====
-- One sift puts an entry in its place in the heap.
pub mod Phases
use mathlib.Core.List.{Perm}
use mathlib.Core.List.Perm
use linux.Base.{
  ℕ, zero, suc, ◌+◌, ◌-◌, ◌*◌, ◌/◌, ◌≤◌, ◌<◌, ◌≡◌, ◌≢◌, ◌⊎◌, inl, inr, refl, List, [], ◌∷◌, Bool,
  true, false, ltb, leb, ◌==◌, if◌then◌else◌, get_or, length, arith,
}
use linux.Base.Int.{ℤ, pos, ltb_ℤ, ◌≤ℤ◌}
use linux.Base.Run.{Run, ok, ◌>>=◌, Gives, gives, Gives-then, Gives-if, Gives-weaken}
use linux.Base.Arrays.{
  cell, cell-lt, set_cell, set_cell-lt, get_or-set, exchanged, length-exchanged, get_or-exchanged,
  Perm-exchanged, swap_cells, swap_cells-lt,
}
use linux.Sort.{Sift, key_less, choose_child, sift_loop, sift_down_standard}

abbrev pub key : List ℤ → ℕ → ℤ
key a i = get_or a i (pos 0)

abbrev pub parent : ℕ → ℕ
parent c = (c - 1) / 2

-- Below `end`, no child of a node from `lo` on is greater than it.
abbrev pub IsHeapFrom : (lo end : ℕ) → List ℤ → Type 0
IsHeapFrom lo end a = (c : ℕ) → 0 < c → c < end → lo ≤ parent c → key a c ≤ℤ key a (parent c)

-- The same but for the children of `i`, which its parent bounds.
pub record IsLoose (lo end : ℕ) (a : List ℤ) (i : ℕ) : Type 0 where
  pub others :
      (c : ℕ) → 0 < c → c < end → lo ≤ parent c → parent c ≢ i → key a c ≤ℤ key a (parent c)
  pub across :
      (c : ℕ) → 0 < c → c < end → parent c ≡ i → 0 < i → lo ≤ parent i → key a c ≤ℤ key a (parent i)

-- What a sift leaves of `a`: a heap of the same entries, with none moved from `end` on, and none
-- brought below it.
pub record Sifted (lo end : ℕ) (a b : List ℤ) : Type 0 where
  pub heap : IsHeapFrom lo end b
  pub same : Perm a b
  pub size : length b ≡ length a
  pub beyond : (j : ℕ) → end ≤ j → key b j ≡ key a j
  pub bounded : (m : ℤ) → ((j : ℕ) → j < end → key a j ≤ℤ m) → (j : ℕ) → j < end → key b j ≤ℤ m

-- `m` is a child of `i` below `end` that none of them is greater than.
pub record IsLargest (a : List ℤ) (i end m : ℕ) : Type 0 where
  pub inside : m < end
  pub child : (m ≡ i * 2 + 1) ⊎ (m ≡ i * 2 + 2)
  pub largest : (c : ℕ) → 0 < c → c < end → parent c ≡ i → key a c ≤ℤ key a m

pub choose_child-IsLargest :
    (a : List ℤ) (i end comparisons : ℕ)
    → i * 2 + 1 < end
    → end ≤ length a
    → Gives (λ (m, comparisons'). IsLargest a i end m) (choose_child a (i * 2 + 1) end comparisons)
unfolding choose_child key_less
choose_child-IsLargest a i end comparisons h l =
    Gives-if (ltb (i * 2 + 1 + 1) end)
      (λ e.
        rw
          (
            cell-lt a (i * 2 + 1) (pos 0) (omega arith),
            cell-lt a (i * 2 + 1 + 1) (pos 0) (ground arith),
          )
          (gives _ record {
            inside = ground arith;
            child = ground arith;
            largest = λ c p q r. ground arith;
          }))
      (λ e. gives _ record { inside = h; child = inl refl; largest = λ c p q r. ground arith })

swap-IsLoose :
    (lo end : ℕ) (a : List ℤ) (i m : ℕ)
    → end ≤ length a
    → i < end
    → IsLoose lo end a i
    → IsLargest a i end m
    → ltb_ℤ (key a i) (key a m) ≡ true
    → IsLoose lo end (exchanged a i m (pos 0)) m
swap-IsLoose lo end a i m l hi v s less =
    let at = get_or-exchanged a i m (pos 0) (omega arith) (omega (arith, s.inside)) in
    record {
      others = λ c p q r t.
          ground (arith, at c, at (parent c), v.others c p q r, v.across m, s.largest c p q);
      across = λ c p q r t u. ground (arith, at c, at (parent m), v.others c p q);
    }

-- What is left after an exchange and a sift was left by the exchange.
exchanged-Sifted :
    (lo end i m : ℕ) (a b : List ℤ)
    → i < end
    → m < end
    → end ≤ length a
    → Sifted lo end (exchanged a i m (pos 0)) b
    → Sifted lo end a b
exchanged-Sifted lo end i m a b hi hm l s =
    let at = get_or-exchanged a i m (pos 0) (omega arith) (omega arith) in
    record {
      heap = s.heap;
      same = Perm.trans (Perm-exchanged a i m (pos 0) (omega arith) (omega arith)) s.same;
      size = omega (arith, s.size, length-exchanged a i m (pos 0));
      beyond = λ j h. ground (arith, s.beyond j h, at j);
      bounded = λ k h j p. s.bounded k (λ c q. ground (arith, at c, h c q, h i hi, h m hm)) j p;
    }

stays-Sifted : (lo end : ℕ) (a : List ℤ) → IsHeapFrom lo end a → Sifted lo end a a
stays-Sifted lo end a h = record {
  heap = h;
  same = Perm.rfl;
  size = refl;
  beyond = λ j p. refl;
  bounded = λ m b. b;
}

sift_loop-Sifted :
    (fuel lo : ℕ) (a : List ℤ) (i end comparisons : ℕ)
    → end ≤ length a
    → i ≤ end
    → end < fuel + i
    → IsLoose lo end a i
    → Gives (λ (b, comparisons'). Sifted lo end a b) (sift_loop fuel a i end comparisons)
unfolding sift_loop key_less
sift_loop-Sifted zero lo a i end comparisons l q f v = absurd (omega arith)
sift_loop-Sifted (suc fuel) lo a i end comparisons l q f v =
    Gives-if (leb end (i * 2 + 1))
      (λ e. gives _ (stays-Sifted lo end a λ c p q r. v.others c p q r (ground arith)))
      (λ e.
        Gives-then
          (λ (m, comparisons') s.
            rw (cell-lt a i (pos 0) (ground arith), cell-lt a m (pos 0) (omega (arith, s.inside)))
              (Gives-if (ltb_ℤ (key a i) (key a m))
                (λ less. rw (swap_cells-lt a i m (pos 0) (ground arith) (omega (arith, s.inside))) (
                  Gives-weaken
                    (λ (b, _) done. exchanged-Sifted lo end i m a b (ground arith) s.inside l done)
                    (sift_loop-Sifted fuel lo (exchanged a i m (pos 0)) m end _
                      (omega (arith, length-exchanged a i m (pos 0), l)) (omega (arith, s.inside))
                      (ground (arith, s.child))
                      (swap-IsLoose lo end a i m l (ground arith) v s less))))
                (λ settled. gives _ (
                  stays-Sifted lo end a
                    λ c p q r. ground (arith, v.others c p q r, s.largest c p q)))))
          (choose_child-IsLargest a i end comparisons (ground arith) l))

-- What a sift promises: the entry at `lo`, the only one that may be out of place, is put in its place.
abbrev pub IsSift : Sift → Type 0
IsSift sift =
    (lo : ℕ) (a : List ℤ) (end comparisons : ℕ)
    → end ≤ length a
    → lo ≤ end
    → IsLoose lo end a lo
    → Gives (λ (b, comparisons'). Sifted lo end a b) (sift a lo end comparisons)

pub sift_down_standard-IsSift : IsSift sift_down_standard
unfolding sift_down_standard
sift_down_standard-IsSift lo a end comparisons l q v =
    sift_loop-Sifted (end + 1) lo a lo end comparisons l q (omega arith) v
