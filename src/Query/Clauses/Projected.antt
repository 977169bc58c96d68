-- ===== src/Query/Clauses/Projected.antt =====
-- The values that projected expressions bind.
use primebrick_v3_dal.Base.{Text, Option, List, [], ◌∷◌, ◌++◌, refl}
use primebrick_v3_dal.Query.Dsl.{Entity, Value, FieldProjector, project_field, project_expr}
use primebrick_v3_dal.Query.Writer.{
  Sql, txt, lit, Built, ok, err, ◌>>=◌, quote_ident, q_table, q_col, override_for,
}
use primebrick_v3_dal.Query.Render.Params.{
  Numbers, Numbers-code, Numbers-append, Numbers-behind, Sound, Sound-bind, Sound-text,
  render_expr_operand-Sound,
}
use primebrick_v3_dal.Query.Clauses.{render_projector, render_projectors}

-- The projections one after the other.
abbrev pub together : List Sql → Sql
together [] = []
together (p ∷ ps) = p ++ together ps

abbrev pub joined : List Sql × List Value → Built (Sql × List Value)
joined (ps, w) = ok (together ps, w)

module _ (base : Entity) (override : Option Text) where
  projector-Sound :
      (f : FieldProjector) (w : List Value) → Sound w (render_projector base override f w)
  unfolding render_projector
  projector-Sound (project_expr e alias) w =
      Sound-bind w _ _ (render_expr_operand-Sound e w) (λ p w' n.
        Sound-text w (quote_ident alias) _ (λ a.
          Numbers-behind w w' (p ++ lit " AS ") (txt a) refl
            (Numbers-behind w w' p (lit " AS ") refl n)))
  projector-Sound (project_field f alias) w =
      Sound-text w (q_table f.entity (override_for override f.entity base)) _ (λ t.
        Sound-text w (q_col f.entity f.key) _ (λ c. Sound-text w _ _ (λ a.
          Sound-text w (quote_ident a) _
            (λ b. Numbers-code w (txt t ++ lit "." ++ txt c ++ lit " AS " ++ txt b) refl))))

  -- The projections of a list of fields and expressions, taken one after the other, have one
  -- placeholder for each value they bind, numbered on from the values bound before, in order.
  pub render_projectors-Sound :
      (fs : List FieldProjector) (w : List Value)
      → Sound w (render_projectors base override fs w >>= joined)
  unfolding render_projectors
  render_projectors-Sound [] w = Numbers-code w [] refl
  render_projectors-Sound (f ∷ fs) w =
      first (render_projector base override f w) (projector-Sound f w)
        (λ w'. render_projectors-Sound fs w')
    where
      next :
          (p : Sql) (w' : List Value) (m : Built (List Sql × List Value))
          → Numbers w p w'
          → Sound w' (m >>= joined)
          → Sound w ((m >>= λ (ps, w''). ok (p ∷ ps, w'')) >>= joined)
      next p w' (ok (ps, w'')) n h = Numbers-append w w' w'' p (together ps) n h
      next p w' (err e) n h = tt

      first :
          (m : Built (Sql × List Value))
          → Sound w m
          → ((w' : List Value) → Sound w' (render_projectors base override fs w' >>= joined))
          → Sound w (
              (m >>= λ (p, w').
              render_projectors base override fs w' >>= λ (ps, w''). ok (p ∷ ps, w''))
              >>= joined)
      first (ok (p, w')) n ih = next p w' (render_projectors base override fs w') n (ih w')
      first (err e) n ih = tt
