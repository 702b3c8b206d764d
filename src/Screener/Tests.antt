-- ===== src/Screener/Tests.antt =====
-- Runs over a region of 2 by 3 positions, and the theorems on them.
use ele_fits.Prelude.{◌≡◌, refl, some, List, [], ◌∷◌, length, get_elem?, ok, arith}
use ele_fits.Prelude.Int.{pos, negsuc, ◌+ℤ◌}
use ele_fits.Position.{Position, position_eq}
use ele_fits.Region.{Region}
use ele_fits.Screener.{Screener, next, visit_region}
use ele_fits.Screener.Rank.{InBox, rank}
use ele_fits.Screener.Moves.{IsScreening, Follows, next-Follows}
use ele_fits.Screener.Visit.{Ranked, visit_region-Ranked}

abbrev front : Position
front = negsuc 0 ∷ pos 2 ∷ []

abbrev back : Position
back = pos 0 ∷ pos 4 ∷ []

abbrev box : Region
box = record { front = front; back = back }

-- The current position at the end of the first axis, with a follower from the origin.
abbrev mid : Screener
mid = record {
  region = box;
  current = pos 0 ∷ pos 3 ∷ [];
  fronts = (pos 0 ∷ pos 0 ∷ []) ∷ [];
  followers = (pos 1 ∷ pos 1 ∷ []) ∷ [];
}

next-mid :
    next mid
    ≡ ok (record mid { current = negsuc 0 ∷ pos 4 ∷ []; followers = (pos 0 ∷ pos 2 ∷ []) ∷ [] })
unfolding next position_eq ◌+ℤ◌
next-mid = refl

box_visited :
    visit_region 7 box
    ≡ ok (
        some (
          (negsuc 0 ∷ pos 2 ∷ [])
          ∷ (pos 0 ∷ pos 2 ∷ [])
          ∷ (negsuc 0 ∷ pos 3 ∷ [])
          ∷ (pos 0 ∷ pos 3 ∷ [])
          ∷ (negsuc 0 ∷ pos 4 ∷ [])
          ∷ (pos 0 ∷ pos 4 ∷ [])
          ∷ []))
unfolding visit_region position_eq ◌+ℤ◌
box_visited = refl

mid-IsScreening : IsScreening mid
mid-IsScreening = record {
  inside = ((omega arith, omega arith), ((omega arith, omega arith), tt));
  led = ((refl, (refl, tt)), tt);
}

next-Follows_example : (s' : Screener) × (next mid ≡ ok s') × Follows mid s'
next-Follows_example = next-Follows mid mid-IsScreening

visit_region-Ranked_example :
    (ps : List Position) × (visit_region 7 box ≡ ok (some ps))
    × (length ps ≡ 6)
    × Ranked front back 0 ps
    × ((q : Position) → InBox front back q → get_elem? ps (rank front back q) ≡ some q)
visit_region-Ranked_example =
    visit_region-Ranked 7 box ((omega arith, omega arith), ((omega arith, omega arith), tt))
      (λ e. cc) (omega arith)
