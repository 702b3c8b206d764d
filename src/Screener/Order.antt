-- ===== src/Screener/Order.antt =====
-- The rank numbers the positions of a box from 0 to its size, without repetition.
use ele_fits.Prelude.{ℕ, suc, ◌+◌, ◌*◌, ◌<◌, ◌≡◌, refl, ap, [], ◌∷◌, arith}
use ele_fits.Prelude.Int.{eq_of_parts}
use ele_fits.Position.{Position}
use ele_fits.Screener.Rank.{dist, InBox, rank, total}

digit-lt : (w d e r s : ℕ) → d < w → r < s → d + w * r < e + w * s
digit-lt w d e r s h k = grind arith

digits_inj : (w d e r s : ℕ) → d < w → e < w → d + w * r ≡ e + w * s → (d ≡ e) × (r ≡ s)
digits_inj w d e r s h k same = ground (arith, digit-lt w d e r s h, digit-lt w e d s r k)

pub InBox-front : (f b p : Position) → InBox f b p → InBox f b f
InBox-front [] [] [] h = h
InBox-front [] [] (c ∷ cs) h = absurd h
InBox-front [] (b ∷ bs) p h = absurd h
InBox-front (f ∷ fs) [] p h = absurd h
InBox-front (f ∷ fs) (b ∷ bs) [] h = absurd h
InBox-front (f ∷ fs) (b ∷ bs) (c ∷ cs) (h, rest) = (omega arith, InBox-front fs bs cs rest)

pub rank-front : (f b : Position) → rank f b f ≡ 0
rank-front [] b = refl
rank-front (f ∷ fs) [] = refl
rank-front (f ∷ fs) (b ∷ bs) = omega (arith, ap (λ (t : ℕ). (dist f b + 1) * t) (rank-front fs bs))

pub rank-back : (f b : Position) → InBox f b b → suc (rank f b b) ≡ total f b
rank-back [] [] h = refl
rank-back [] (b ∷ bs) h = absurd h
rank-back (f ∷ fs) [] h = absurd h
rank-back (f ∷ fs) (b ∷ bs) (h, rest) =
    omega (arith, ap (λ (t : ℕ). (dist f b + 1) * t) (rank-back fs bs rest))

pub rank-lt-total : (f b p : Position) → InBox f b p → rank f b p < total f b
rank-lt-total [] [] [] h = omega arith
rank-lt-total [] [] (c ∷ cs) h = absurd h
rank-lt-total [] (b ∷ bs) p h = absurd h
rank-lt-total (f ∷ fs) [] p h = absurd h
rank-lt-total (f ∷ fs) (b ∷ bs) [] h = absurd h
rank-lt-total (f ∷ fs) (b ∷ bs) (c ∷ cs) (h, rest) =
    digit-lt_total (dist f b + 1) (dist f c) (rank fs bs cs) (total fs bs) (omega arith)
      (rank-lt-total fs bs cs rest)
  where
    digit-lt_total : (w d r t : ℕ) → d < w → r < t → d + w * r < w * t
    digit-lt_total w d r t h k = grind arith

pub rank_inj : (f b p q : Position) → InBox f b p → InBox f b q → rank f b p ≡ rank f b q → p ≡ q
rank_inj [] [] [] [] h k e = refl
rank_inj [] [] [] (c ∷ q) h k e = absurd k
rank_inj [] [] (c ∷ p) q h k e = absurd h
rank_inj [] (b ∷ bs) p q h k e = absurd h
rank_inj (f ∷ fs) [] p q h k e = absurd h
rank_inj (f ∷ fs) (b ∷ bs) [] q h k e = absurd h
rank_inj (f ∷ fs) (b ∷ bs) (c ∷ p) [] h k e = absurd k
rank_inj (f ∷ fs) (b ∷ bs) (c ∷ p) (d ∷ q) (h, hp) (k, kq) e =
    let parts =
      digits_inj (dist f b + 1) (dist f c) (dist f d) (rank fs bs p) (rank fs bs q) (omega arith)
        (omega arith) e in
    cc (eq_of_parts c d (omega (arith, parts.0)), rank_inj fs bs p q hp kq parts.1)
