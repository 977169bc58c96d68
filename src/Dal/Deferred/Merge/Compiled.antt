-- ===== src/Dal/Deferred/Merge/Compiled.antt =====
-- The compiled statement keeps what every operation's own statement means.
use primebrick_v3_dal.Base.{ℕ, ◌+◌, List, [], ◌∷◌, ◌≡◌, refl, subst, map}
use primebrick_v3_dal.Query.Writer.{Sql}
use primebrick_v3_dal.Dal.Deferred.Scan.{split_top_level_ctes}
use primebrick_v3_dal.Dal.Deferred.Merge.{
  OpInfo, Param, CapturedSql, Merged, ok, err, ◌>>=◌, tokens, Remap, remap_params, remap_all,
  Branches, names_of, abort_spec, prefix_of, renamed_ctes, renamed_tail, compile_op, compile_ops,
  Statement, assemble, compile,
}
use primebrick_v3_dal.Dal.Deferred.Merge.Preserves.{
  Extends, Extends-refl, Extends-trans, AllMean, EachMean, AllMean-extend, EachMean-extend, Keeps,
  remap_params-Keeps, remap_all-Keeps,
}

-- The branches of the operation at `i` mean what its captured statement does.
abbrev pub OpMeans : List OpInfo → ℕ → CapturedSql → List Param → Branches → Type 0
OpMeans ops i cap m b =
    EachMean i ops cap.values m (renamed_ctes i cap) b.ctes
    × AllMean i ops cap.values m (tokens (renamed_tail i cap)) b.tail

abbrev pub AllOps :
    List OpInfo → ℕ → List (OpInfo × CapturedSql) → List Param → List Branches → Type 0
AllOps ops i [] m [] = Unit
AllOps ops i ((op, cap) ∷ rest) m (b ∷ bs) =
    (OpMeans ops i cap m b
      × (b.abort
          ≡ abort_spec op op.abort (names_of (split_top_level_ctes cap.text).0) (prefix_of i) i))
    × AllOps ops (i + 1) rest m bs
AllOps ops i _ m _ = ⊥

module _ (ops : List OpInfo) where
  abbrev Compiled : ℕ → OpInfo → CapturedSql → List Param → Merged (Branches × List Param) → Type 0
  Compiled i op cap m (ok (b, m')) =
      Extends m m'
      × OpMeans ops i cap m' b
      × (b.abort
          ≡ abort_spec op op.abort (names_of (split_top_level_ctes cap.text).0) (prefix_of i) i)
  Compiled i op cap m (err e) = Unit

  compile_op-Compiled :
      (i : ℕ) (op : OpInfo) (cap : CapturedSql) (m : List Param)
      → Compiled i op cap m (compile_op ops i op cap m)
  unfolding compile_op
  compile_op-Compiled i op cap m =
      by_ctes (remap_all i ops cap.values (renamed_ctes i cap) start)
        (remap_all-Keeps i ops cap.values (renamed_ctes i cap) start tt)
    where
      start : Remap
      start = record { merged = m; index = [] }

      finish : List Sql → Sql × Remap → Merged (Branches × List Param)
      finish ctes (tail, st') = ok (
        record {
          ctes = ctes;
          tail = tail;
          abort =
              abort_spec op op.abort (names_of (split_top_level_ctes cap.text).0) (prefix_of i) i;
        },
        st'.merged,
      )

      by_tail :
          (ctes : List Sql) (st : Remap)
          → Extends m st.merged
          → EachMean i ops cap.values st.merged (renamed_ctes i cap) ctes
          → (r : Merged (Sql × Remap))
          → Keeps i ops cap.values
              (λ sql m'. AllMean i ops cap.values m' (tokens (renamed_tail i cap)) sql)
              st
              r
          → Compiled i op cap m (r >>= finish ctes)
      by_tail ctes st x each (err e) h = tt
      by_tail ctes st x each (ok (tail, st')) (y, j, all) = (
        Extends-trans _ _ _ x y,
        (
          EachMean-extend i ops cap.values st.merged st'.merged (renamed_ctes i cap) ctes y each,
          all,
        ),
        refl,
      )

      by_ctes :
          (r : Merged (List Sql × Remap))
          → Keeps i ops cap.values
              (λ ps m'. EachMean i ops cap.values m' (renamed_ctes i cap) ps)
              start
              r
          → Compiled i op cap m (
              r >>= λ (ctes, st).
              remap_params i ops cap.values (tokens (renamed_tail i cap)) st >>= finish ctes)
      by_ctes (err e) h = tt
      by_ctes (ok (ctes, st)) (x, j, each) =
          by_tail ctes st x each _
            (remap_params-Keeps i ops cap.values (tokens (renamed_tail i cap)) st j)

  abbrev CompiledAll :
      ℕ → List (OpInfo × CapturedSql) → List Param → Merged (List Branches × List Param) → Type 0
  CompiledAll i caps m (ok (bs, m')) = Extends m m' × AllOps ops i caps m' bs
  CompiledAll i caps m (err e) = Unit

  compile_ops-CompiledAll :
      (i : ℕ) (caps : List (OpInfo × CapturedSql)) (m : List Param)
      → CompiledAll i caps m (compile_ops ops i caps m)
  unfolding compile_ops
  compile_ops-CompiledAll i [] m = (Extends-refl m, tt)
  compile_ops-CompiledAll i ((op, cap) ∷ rest) m =
      by_op (compile_op ops i op cap m) (compile_op-Compiled i op cap m)
        (λ m'. compile_ops-CompiledAll (i + 1) rest m')
    where
      by_rest :
          (b : Branches) (m' : List Param)
          → Compiled i op cap m (ok (b, m'))
          → (r : Merged (List Branches × List Param)) → CompiledAll (i + 1) rest m' r
          → CompiledAll i ((op, cap) ∷ rest) m (r >>= λ (bs, m''). ok (b ∷ bs, m''))
      by_rest b m' h (err e) k = tt
      by_rest b m' (x, (each, all), a) (ok (bs, m'')) (y, k) = (
        Extends-trans _ _ _ x y,
        (
          (
            (
              EachMean-extend i ops cap.values m' m'' (renamed_ctes i cap) b.ctes y each,
              AllMean-extend i ops cap.values m' m'' (tokens (renamed_tail i cap)) b.tail y all,
            ),
            a,
          ),
          k,
        ),
      )

      by_op :
          (r : Merged (Branches × List Param))
          → Compiled i op cap m r
          → ((m' : List Param) → CompiledAll (i + 1) rest m' (compile_ops ops (i + 1) rest m'))
          → CompiledAll i
              ((op, cap) ∷ rest)
              m
              (r >>= λ (b, m'). compile_ops ops (i + 1) rest m' >>= λ (bs, m''). ok (b ∷ bs, m''))
      by_op (err e) h ih = tt
      by_op (ok (b, m')) h ih = by_rest b m' h (compile_ops ops (i + 1) rest m') (ih m')

-- Where the compilation succeeds, the statement is made of the branches of the operations, in
-- order. In each, every character of the operation's statement, its CTEs renamed, is kept; every
-- placeholder is one for the value that the operation bound there, or, where that is a reference,
-- reads the field from an earlier operation that emits it. An operation has an abort branch just
-- where it asks for one.
pub compile-Means :
    (caps : List (OpInfo × CapturedSql)) (s : Statement)
    → compile caps ≡ ok s
    → (bs : List Branches) × (s ≡ assemble bs s.values)
      × AllOps (map (λ p. p.0) caps) 0 caps s.values bs
unfolding compile assemble
compile-Means caps s h =
    by_result (compile_ops (map (λ p. p.0) caps) 0 caps [])
      (compile_ops-CompiledAll (map (λ p. p.0) caps) 0 caps []) h
  where
    by_result :
        (r : Merged (List Branches × List Param))
        → CompiledAll (map (λ p. p.0) caps) 0 caps [] r
        → (r >>= λ (bs, m). ok (assemble bs m)) ≡ ok s
        → (bs : List Branches) × (s ≡ assemble bs s.values)
          × AllOps (map (λ p. p.0) caps) 0 caps s.values bs
    by_result (err e) k e' = cc
    by_result (ok (bs, m)) (x, k) e =
        subst
          (λ s'.
            (bs' : List Branches) × (s' ≡ assemble bs' s'.values)
            × AllOps (map (λ p. p.0) caps) 0 caps s'.values bs')
          same (bs, refl, k)
      where
        same : assemble bs m ≡ s
        same = cc
