-- ===== src/ImageIo/Steps.antt =====
-- The lines at which the screener of `read_region_to` stands.
use ele_fits.Prelude.{ℕ, ◌+◌, ◌%◌, ◌≡◌, sym, ap, ◌∙◌, subst, List, [], ◌∷◌, arith, ok}
use ele_fits.Prelude.Int.{ℤ, pos, ◌+ℤ◌, eq_of_parts}
use ele_fits.Position.{Position}
use ele_fits.Region.{Region}
use ele_fits.Screener.{Screener, next}
use ele_fits.Screener.Rank.{dist, InBox, rank, total}
use ele_fits.Screener.Moves.{IsScreening, AllDisplaced, next-Follows, screened, region_total}
use ele_fits.ImageIo.Lines.{along, Displaced-same}
use ele_fits.ImageIo.Progress.{Frame, IsLine, line_rank, line_end}

flat : (f : ℤ) → dist f f ≡ 0
flat f = omega arith

module _ (t : Frame) where
  open t use {length_0, front_0, back_0, target_0, last_0, lengths, front, back, target, last}

  -- The starts of the lines in the file.
  abbrev pub starts : Region
  starts = record { front = front_0 ∷ front; back = front_0 ∷ back }

  abbrev pub line_fronts : List Position
  line_fronts = along front_0 (line_end t) front ∷ (target_0 ∷ target) ∷ []

  -- The screener stands at a line.
  pub record At (s : Screener) (cs os : Position) : Type 0 where
    pub current_is : s.current ≡ front_0 ∷ cs
    pub followers_are : s.followers ≡ along front_0 (line_end t) cs ∷ (target_0 ∷ os) ∷ []
    pub is_line : IsLine t cs os

  pub record Screens (s : Screener) : Type 0 where
    pub screening : IsScreening s
    pub same_region : s.region ≡ starts
    pub same_fronts : s.fronts ≡ line_fronts

  at-IsLine :
      (current : Position) (followers : List Position)
      → InBox (front_0 ∷ front) (front_0 ∷ back) current
      → AllDisplaced (front_0 ∷ front) current line_fronts followers
      → (cs : Position) × (os : Position) × (current ≡ front_0 ∷ cs)
        × (followers ≡ along front_0 (line_end t) cs ∷ (target_0 ∷ os) ∷ [])
        × IsLine t cs os
  at-IsLine [] followers h d = absurd h
  at-IsLine (c ∷ cs) [] h d = absurd d
  at-IsLine (c ∷ cs) (p ∷ []) h d = absurd d.1
  at-IsLine (c ∷ cs) (p ∷ q ∷ o ∷ more) h d = absurd d.1.1
  at-IsLine (c ∷ cs) ([] ∷ q ∷ []) h d = absurd d.0
  at-IsLine (c ∷ cs) ((p ∷ ps) ∷ [] ∷ []) h d = absurd d.1.0
  at-IsLine (c ∷ cs) ((p ∷ ps) ∷ (q ∷ qs) ∷ []) h d =
      let near : c ≡ front_0 = eq_of_parts c front_0 (omega (arith, h.0)) in
      let far : p ≡ front_0 +ℤ pos (line_end t) =
        eq_of_parts p (front_0 +ℤ pos (line_end t)) (omega (arith, h.0, d.0.0)) in
      let there : q ≡ target_0 = eq_of_parts q target_0 (omega (arith, h.0, d.1.0.0)) in
      let rest = Displaced-same front cs ps d.0.1 in
      (cs, qs, cc near, cc (far, there, rest), record { inside = h.1; displaced = d.1.0.1 })

  starts-rank :
      (cs : Position) → rank (front_0 ∷ front) (front_0 ∷ back) (front_0 ∷ cs) ≡ line_rank t cs
  starts-rank cs = rw (flat front_0) (omega arith)

  pub starts-total : total (front_0 ∷ front) (front_0 ∷ back) ≡ total front back
  starts-total = rw (flat front_0) (omega arith)

  -- The line at which a screener stands.
  pub Screens-At : (s : Screener) → Screens s → (cs : Position) × (os : Position) × At s cs os
  Screens-At s v =
      let inside : InBox (front_0 ∷ front) (front_0 ∷ back) s.current =
        subst (λ (x : Region). InBox x.front x.back s.current) v.same_region v.screening.inside in
      let led : AllDisplaced (front_0 ∷ front) s.current line_fronts s.followers =
        subst (λ (x : List Position). AllDisplaced (front_0 ∷ front) s.current x s.followers)
          v.same_fronts
          (subst (λ (x : Region). AllDisplaced x.front s.current s.fronts s.followers) v.same_region
            v.screening.led) in
      let (cs, os, here, led_to, line) = at-IsLine s.current s.followers inside led in
      (cs, os, record { current_is = here; followers_are = led_to; is_line = line })

  -- `next` goes to the line of the next rank, and from the last line to the first.
  pub next-Screens :
      (s : Screener) (cs os : Position)
      → Screens s
      → At s cs os
      → (s' : Screener) × (next s ≡ ok s')
        × Screens s'
        × (cs' : Position) × (os' : Position) × At s' cs' os'
        × (line_rank t cs' ≡ (line_rank t cs + 1) % total front back)
  next-Screens s cs os v at =
      let (s', runs, kept) = next-Follows s v.screening in
      let (v', same_region, same_fronts, ranked) = kept in
      let w : Screens s' = record {
        screening = v';
        same_region = same_region ∙ v.same_region;
        same_fronts = same_fronts ∙ v.same_fronts;
      } in
      let (cs', os', at') = Screens-At s' w in
      let after : rank (front_0 ∷ front) (front_0 ∷ back) s'.current
          ≡ (screened s + 1) % region_total s.region =
        subst
          (λ (x : Region).
            rank x.front x.back s'.current ≡ (screened s + 1) % region_total s.region)
          w.same_region ranked in
      let before : rank (front_0 ∷ front) (front_0 ∷ back) s'.current
          ≡ (rank (front_0 ∷ front) (front_0 ∷ back) s.current + 1)
            % total (front_0 ∷ front) (front_0 ∷ back) =
        subst
          (λ (x : Region).
            rank (front_0 ∷ front) (front_0 ∷ back) s'.current
            ≡ (rank x.front x.back s.current + 1) % total x.front x.back)
          v.same_region after in
      (s', runs, w, cs', os', at', moved s s' cs os cs' os' at at' before)
    where
      moved :
          (s s' : Screener) (cs os cs' os' : Position)
          → At s cs os
          → At s' cs' os'
          → rank (front_0 ∷ front) (front_0 ∷ back) s'.current
            ≡ (rank (front_0 ∷ front) (front_0 ∷ back) s.current + 1)
              % total (front_0 ∷ front) (front_0 ∷ back)
          → line_rank t cs' ≡ (line_rank t cs + 1) % total front back
      moved s s' cs os cs' os' at at' e =
          sym (starts-rank cs')
          ∙ ap (rank (front_0 ∷ front) (front_0 ∷ back)) (sym at'.current_is)
          ∙ e
          ∙ ap (λ (n : ℕ). (n + 1) % total (front_0 ∷ front) (front_0 ∷ back))
              (ap (rank (front_0 ∷ front) (front_0 ∷ back)) at.current_is ∙ starts-rank cs)
          ∙ ap (λ (n : ℕ). (line_rank t cs + 1) % n) starts-total
