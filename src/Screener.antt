-- ===== src/Screener.antt =====
-- `RegionScreener` of EleFitsData/EleFitsData/Region.h and `PositionIterator` of
-- EleFitsData/EleFitsData/PositionIterator.h: the positions of a region, one after the other, and
-- followers that make the same moves.
pub mod Rank
pub mod Order
pub mod Moves
pub mod Visit
mod Tests
use package.ele_fits.Prelude.{
  ℕ, zero, suc, ◌+◌, Bool, true, false, not, List, [], ◌∷◌, if◌then◌else◌, Outcome, ok, fail,
  undefined_behaviour, ◌>>=◌,
}
use mathlib.Core.Option
use package.ele_fits.Prelude.{Option, none, some}
use package.ele_fits.Prelude.Int.{ℤ, pos, ◌+ℤ◌, ltb_ℤ}
use package.ele_fits.Position.{Position, position_eq}
use package.ele_fits.Region.{Region}

pub record Screener : Type 0 where
  pub region : Region
  pub current : Position
  pub fronts : List Position
  pub followers : List Position

-- The constructor.
unfoldable pub start : Region → List Position → Screener
start region followers = record {
  region = region;
  current = region.front;
  fronts = followers;
  followers = followers;
}

unfoldable pub reset : Screener → Screener
reset s = record s { current = s.region.front; followers = s.fronts }

-- `p[0]++`, a write past the end of a position of dimension 0.
unfoldable pub bump : Position → Outcome Position
bump [] = fail undefined_behaviour
bump (c ∷ rest) = ok ((c +ℤ pos 1) ∷ rest)

unfoldable pub bump_all : List Position → Outcome (List Position)
unfolding bump
bump_all [] = ok []
bump_all (f ∷ rest) = do f' ← bump f; rest' ← bump_all rest; ok (f' ∷ rest')

-- The loop over the axes, from some axis on, as it moves the current position: an axis past its
-- back goes to its front and the next axis is incremented. It also returns which axes did.
unfoldable pub carry : Position → Position → Position → Outcome (List Bool × Position)
unfolding bump
carry front back [] = ok ([], [])
carry [] back (c ∷ rest) = fail undefined_behaviour
carry (f ∷ front) [] (c ∷ rest) = fail undefined_behaviour
carry (f ∷ front) (b ∷ back) (c ∷ rest) =
    let wrapped = (do
      rest' ← bump rest
      (axes, moved) ← carry front back rest'
      ok (true ∷ axes, f ∷ moved)) in
    let kept = (do (axes, moved) ← carry front back rest; ok (false ∷ axes, c ∷ moved)) in
    if ltb_ℤ b c then wrapped else kept

-- The same loop as it moves a follower, for the axes that `carry` tells.
unfoldable pub follow : List Bool → Position → Position → Outcome Position
unfolding bump
follow [] front follower = ok follower
follow (false ∷ axes) front [] = follow axes front []
follow (false ∷ axes) [] (c ∷ rest) = do moved ← follow axes [] rest; ok (c ∷ moved)
follow (false ∷ axes) (f ∷ front) (c ∷ rest) = do moved ← follow axes front rest; ok (c ∷ moved)
follow (true ∷ axes) (f ∷ front) (c ∷ rest) = do
  rest' ← bump rest
  moved ← follow axes front rest'
  ok (f ∷ moved)
follow (true ∷ axes) front follower = fail undefined_behaviour

unfoldable pub follow_all : List Bool → List Position → List Position → Outcome (List Position)
unfolding follow
follow_all axes fronts [] = ok []
follow_all axes [] (p ∷ followers) = fail undefined_behaviour
follow_all axes (front ∷ fronts) (p ∷ followers) = do
  moved ← follow axes front p
  rest ← follow_all axes fronts followers
  ok (moved ∷ rest)

-- What `next` does short of the back. No round of its loops reads what a follower's round writes,
-- so each follower is moved after the current position.
unfoldable pub advance : Screener → Outcome Screener
unfolding bump bump_all carry follow_all
advance s = do
  bumped ← bump s.current
  followers ← bump_all s.followers
  (axes, moved) ← carry s.region.front s.region.back bumped
  followers' ← follow_all axes s.fronts followers
  ok (record s { current = moved; followers = followers' })

-- `RegionScreener::next` goes back to the front.
unfoldable pub next : Screener → Outcome Screener
unfolding advance reset
next s = if position_eq s.current s.region.back then ok (reset s) else advance s

-- `PositionIterator::next` goes one past the back.
unfoldable pub iterator_next : Screener → Outcome Screener
unfolding advance bump
iterator_next s =
    if position_eq s.current s.region.back
    then (do bumped ← bump s.current; ok (record s { current = bumped }))
    else advance s

unfoldable pub begin : Region → Screener
unfolding start
begin region = start region []

-- The iterator on `{pastTheLast, back}`; only its current position is read.
unfoldable pub end : Region → Outcome Screener
unfolding bump start
end region = do past ← bump region.back; ok (start (record region { front = past }) [])

-- `for (const auto& p : region)` up to the position `past`: the positions that the loop visits, or
-- `none` where the fuel runs out.
unfoldable pub visit : ℕ → Screener → Position → Outcome (Option (List Position))
unfolding iterator_next
visit zero it past = ok none
visit (suc fuel) it past =
    let round = (do
      it' ← iterator_next it
      rest ← visit fuel it' past
      ok (Option.map (λ ps. it.current ∷ ps) rest)) in
    if position_eq it.current past then ok (some []) else round

unfoldable pub visit_region : ℕ → Region → Outcome (Option (List Position))
unfolding begin end visit
visit_region fuel region = do past ← end region; visit fuel (begin region) past.current
