-- ===== src/Dal/Deferred/Merge/Preserves.antt =====
-- Renumbering keeps what every placeholder stands for.
use primebrick_v3_dal.Base.{
  ℕ, zero, suc, ◌+◌, ◌≤◌, Bool, true, false, Option, none, some, List, [], ◌∷◌, ◌++◌, ◌≡◌, refl,
  sym, ap, ◌∙◌, ◌⊎◌, inl, inr, Text, includes, length, length-append, append_assoc, append-nil,
  arith, leb, get_elem?, All, All-map, ◌==◌, if◌then◌else◌, Bool-cases,
}
use primebrick_v3_dal.Query.Writer
use primebrick_v3_dal.Query.Writer.{Piece, code, param, Sql, Built, quote_ident}
use primebrick_v3_dal.Dal.Deferred.Merge.{
  OpInfo, Param, bound, field_ref, undefined, MergeError, Merged, ok, err, ◌>>=◌, value_at, Token,
  char, placeholder, tokens, Remap, index_of_local, subquery, quoted_or, resolve_ref, share_index,
  remap_value, remap_token, remap_params, remap_all,
}

abbrev pub Extends : List Param → List Param → Type 0
Extends m m' = (extra : List Param) × (m' ≡ m ++ extra)

pub Extends-refl : (m : List Param) → Extends m m
Extends-refl m = ([], sym (append-nil m))

pub Extends-trans : (a b c : List Param) → Extends a b → Extends b c → Extends a c
Extends-trans a b c (x, e) (y, f) = (x ++ y, f ∙ ap (λ l. l ++ y) e ∙ append_assoc a x y)

value_at-append :
    (m extra : List Param) (g : ℕ) → g ≤ length m → value_at (m ++ extra) g ≡ value_at m g
value_at-append m extra zero h = refl
value_at-append [] extra (suc g) h = absurd (omega arith)
value_at-append (v ∷ m) extra (suc zero) h = refl
value_at-append (v ∷ m) extra (suc (suc g)) h = value_at-append m extra (suc g) (omega arith)

value_at-pushed : (m : List Param) (v : Param) → value_at (m ++ v ∷ []) (suc (length m)) ≡ v
value_at-pushed [] v = refl
value_at-pushed (u ∷ m) v = value_at-pushed m v

-- A global index of a local one.
abbrev pub Stands : List Param → List Param → ℕ → ℕ → Type 0
Stands values m n g = (g ≤ length m) × (value_at m g ≡ value_at values n)

Stands-extend :
    (values m m' : List Param) (n g : ℕ) → Extends m m' → Stands values m n g → Stands values m' n g
Stands-extend values m m' n g (extra, e) (within, same) = (
  omega (arith, within, ap length e, length-append m extra),
  ap (λ l. value_at l g) e ∙ value_at-append m extra g within ∙ same,
)

module _ (op_index : ℕ) (ops : List OpInfo) (values : List Param) where
  -- The piece `p` of the merged statement means what the token does in the statement of its own:
  -- a character is itself; a placeholder is one for the same value; or it was bound to a reference,
  -- and reads the field from an earlier operation that emits it.
  abbrev pub Means : List Param → Token → Piece → Type 0
  Means m (char c) p = p ≡ code (c ∷ [])
  Means m (placeholder n) p =
      ((g : ℕ) × (p ≡ param g) × (g ≤ length m) × (value_at m g ≡ value_at values n))
      ⊎ ((k : ℕ) × (field : Text) × (src : OpInfo) × (quoted : Text) × (value_at values n
            ≡ field_ref k field)
          × (leb op_index k ≡ false)
          × (get_elem? ops k ≡ some src)
          × (includes src.emitted_keys field ≡ true)
          × (quote_ident field ≡ Writer.ok quoted)
          × (p ≡ code (subquery quoted k)))

  abbrev pub AllMean : List Param → List Token → Sql → Type 0
  AllMean m [] [] = Unit
  AllMean m (t ∷ ts) (p ∷ sql) = Means m t p × AllMean m ts sql
  AllMean m _ _ = ⊥

  abbrev pub EachMean : List Param → List Text → List Sql → Type 0
  EachMean m [] [] = Unit
  EachMean m (s ∷ ss) (p ∷ ps) = AllMean m (tokens s) p × EachMean m ss ps
  EachMean m _ _ = ⊥

  Means-extend :
      (m m' : List Param) (t : Token) (p : Piece) → Extends m m' → Means m t p → Means m' t p
  Means-extend m m' (char c) p x h = h
  Means-extend m m' (placeholder n) p x (inl (g, e, within, same)) =
      let (within', same') = Stands-extend values m m' n g x (within, same) in
      inl (g, e, within', same')
  Means-extend m m' (placeholder n) p x (inr h) = inr h

  pub AllMean-extend :
      (m m' : List Param) (ts : List Token) (sql : Sql)
      → Extends m m'
      → AllMean m ts sql
      → AllMean m' ts sql
  AllMean-extend m m' [] [] x h = tt
  AllMean-extend m m' (t ∷ ts) (p ∷ sql) x (h, hs) =
      (Means-extend m m' t p x h, AllMean-extend m m' ts sql x hs)
  AllMean-extend m m' [] (p ∷ sql) x h = h
  AllMean-extend m m' (t ∷ ts) [] x h = h

  pub EachMean-extend :
      (m m' : List Param) (ss : List Text) (ps : List Sql)
      → Extends m m'
      → EachMean m ss ps
      → EachMean m' ss ps
  EachMean-extend m m' [] [] x h = tt
  EachMean-extend m m' (s ∷ ss) (p ∷ ps) x (h, hs) =
      (AllMean-extend m m' (tokens s) p x h, EachMean-extend m m' ss ps x hs)
  EachMean-extend m m' [] (p ∷ ps) x h = h
  EachMean-extend m m' (s ∷ ss) [] x h = h

  -- Every entry of the index map is right.
  abbrev pub IsIndex : Remap → Type 0
  IsIndex st = All (λ e. Stands values st.merged e.0 e.1) st.index

  -- A step that succeeds extends the values, keeps the index map right, and `Q` holds of its result
  -- and the values.
  abbrev pub Keeps : {A : Type 0} → (A → List Param → Type 0) → Remap → Merged (A × Remap) → Type 0
  Keeps Q st (ok (a, st')) = Extends st.merged st'.merged × IsIndex st' × Q a st'.merged
  Keeps Q st (err e) = Unit

  Keeps-bind :
      {A B : Type 0} (Q : A → List Param → Type 0) (R : B → List Param → Type 0) (st : Remap)
      (r : Merged (A × Remap)) (f : A × Remap → Merged (B × Remap))
      → Keeps Q st r
      → ((a : A) (st' : Remap) → IsIndex st' → Q a st'.merged → Keeps R st' (f (a, st')))
      → Keeps R st (r >>= f)
  Keeps-bind {B = B} Q R st (err e) f h k = tt
  Keeps-bind {B = B} Q R st (ok (a, st')) f (x, i, q) k = widen (f (a, st')) (k a st' i q)
    where
      widen : (o : Merged (B × Remap)) → Keeps R st' o → Keeps R st o
      widen (ok (b, st'')) (y, j, r) = (Extends-trans _ _ _ x y, j, r)
      widen (err e) h = tt

  Keeps-map :
      {A B : Type 0} (Q : A → List Param → Type 0) (R : B → List Param → Type 0) (st : Remap)
      (r : Merged (A × Remap)) (f : A → B)
      → Keeps Q st r
      → ((a : A) (m : List Param) → Extends st.merged m → Q a m → R (f a) m)
      → Keeps R st (r >>= λ (a, st'). ok (f a, st'))
  Keeps-map Q R st (err e) f h k = tt
  Keeps-map Q R st (ok (a, st')) f (x, i, q) k = (x, i, k a st'.merged x q)

  index_of_local-Stands :
      (n g : ℕ) (m : List Param) (index : List (ℕ × ℕ))
      → All (λ e. Stands values m e.0 e.1) index
      → index_of_local n index ≡ some g
      → Stands values m n g
  unfolding index_of_local
  index_of_local-Stands n g m [] h e = cc
  index_of_local-Stands n g m ((l, k) ∷ index) (stands, h) e = elim (Bool-cases (l == n)) [
    | inl same ↦ ground (arith, stands)
    | inr other ↦ index_of_local-Stands n g m index h (rw other at e)
  ]

  share_index-Keeps :
      (n : ℕ) (v : Param) (st : Remap) (o : Option ℕ)
      → value_at values n ≡ v
      → IsIndex st
      → index_of_local n st.index ≡ o
      → Keeps (λ p m. Means m (placeholder n) p) st (ok (share_index n v st o))
  unfolding share_index
  share_index-Keeps n v st (some g) ev i e =
      let (within, same) = index_of_local-Stands n g st.merged st.index i e in
      (Extends-refl st.merged, i, inl (g, refl, within, same))
  share_index-Keeps n v st none ev i e =
      let within : length st.merged + 1 ≤ length (st.merged ++ v ∷ []) =
        omega (arith, length-append st.merged (v ∷ [])) in
      let same : value_at (st.merged ++ v ∷ []) (length st.merged + 1) ≡ value_at values n =
        ap (value_at (st.merged ++ v ∷ [])) {y = suc (length st.merged)} (omega arith)
        ∙ value_at-pushed st.merged v
        ∙ sym ev in
      (
        (v ∷ [], refl),
        (
          (within, same),
          All-map _ _ st.index (λ p h. Stands-extend values _ _ p.0 p.1 (v ∷ [], refl) h) i,
        ),
        inl (length st.merged + 1, refl, within, same),
      )

  -- A reference resolves to the field of an earlier operation.
  resolve_ref-Keeps :
      (n k : ℕ) (field : Text) (st : Remap)
      → value_at values n ≡ field_ref k field
      → IsIndex st
      → leb op_index k ≡ false
      → Keeps
          (λ p m. Means m (placeholder n) p)
          st
          (resolve_ref k field (get_elem? ops k) >>= λ q. ok (code q, st))
  unfolding resolve_ref
  resolve_ref-Keeps n k field st ev i earlier = by_source (get_elem? ops k) refl
    where
      by_quoted :
          (src : OpInfo)
          → get_elem? ops k ≡ some src
          → includes src.emitted_keys field ≡ true
          → (b : Built Text) → quote_ident field ≡ b
          → Keeps
              (λ p m. Means m (placeholder n) p)
              st
              (quoted_or b (MergeError.invalid_identifier field) (λ q. ok (subquery q k)) >>= λ q.
                ok (code q, st))
      by_quoted src es ei (Writer.ok q) eq =
          (Extends-refl st.merged, i, inr (k, field, src, q, ev, earlier, es, ei, eq, refl))
      by_quoted src es ei (Writer.err x) eq = tt

      by_emitted :
          (src : OpInfo)
          → get_elem? ops k ≡ some src
          → (b : Bool) → includes src.emitted_keys field ≡ b
          → Keeps
              (λ p m. Means m (placeholder n) p)
              st
              ((if b
                  then quoted_or
                      (quote_ident field)
                      (MergeError.invalid_identifier field)
                      (λ q. ok (subquery q k))
                  else err (MergeError.not_emitted field k))
                >>= λ q. ok (code q, st))
      by_emitted src es true ei = by_quoted src es ei (quote_ident field) refl
      by_emitted src es false ei = tt

      by_source :
          (o : Option OpInfo)
          → get_elem? ops k ≡ o
          → Keeps
              (λ p m. Means m (placeholder n) p)
              st
              (resolve_ref k field o >>= λ q. ok (code q, st))
      by_source none e = tt
      by_source (some src) e = by_emitted src e (includes src.emitted_keys field) refl

  remap_value-Keeps :
      (n : ℕ) (v : Param) (st : Remap)
      → value_at values n ≡ v
      → IsIndex st
      → Keeps (λ p m. Means m (placeholder n) p) st (remap_value op_index ops n v st)
  unfolding remap_value
  remap_value-Keeps n (bound v) st ev i = share_index-Keeps n (bound v) st _ ev i refl
  remap_value-Keeps n undefined st ev i = share_index-Keeps n undefined st _ ev i refl
  remap_value-Keeps n (field_ref k field) st ev i = by_order (leb op_index k) refl
    where
      by_order :
          (b : Bool)
          → leb op_index k ≡ b
          → Keeps
              (λ p m. Means m (placeholder n) p)
              st
              (if b
                then err (MergeError.forward_ref field k)
                else (resolve_ref k field (get_elem? ops k) >>= λ q. ok (code q, st)))
      by_order true e = tt
      by_order false e = resolve_ref-Keeps n k field st ev i e

  remap_token-Keeps :
      (t : Token) (st : Remap)
      → IsIndex st
      → Keeps (λ p m. Means m t p) st (remap_token op_index ops values t st)
  unfolding remap_token
  remap_token-Keeps (char c) st i = (Extends-refl st.merged, i, refl)
  remap_token-Keeps (placeholder n) st i = remap_value-Keeps n (value_at values n) st refl i

  pub remap_params-Keeps :
      (ts : List Token) (st : Remap)
      → IsIndex st
      → Keeps (λ sql m. AllMean m ts sql) st (remap_params op_index ops values ts st)
  unfolding remap_params
  remap_params-Keeps [] st i = (Extends-refl st.merged, i, tt)
  remap_params-Keeps (t ∷ ts) st i =
      Keeps-bind (λ p m. Means m t p) _ st _ _ (remap_token-Keeps t st i)
        (λ p st' j h.
          Keeps-map (λ sql m. AllMean m ts sql) (λ sql m. AllMean m (t ∷ ts) sql) st' _
            (λ sql. p ∷ sql) (remap_params-Keeps ts st' j)
            (λ sql m x hs. (Means-extend st'.merged m t p x h, hs)))

  pub remap_all-Keeps :
      (ss : List Text) (st : Remap)
      → IsIndex st
      → Keeps (λ ps m. EachMean m ss ps) st (remap_all op_index ops values ss st)
  unfolding remap_all
  remap_all-Keeps [] st i = (Extends-refl st.merged, i, tt)
  remap_all-Keeps (s ∷ ss) st i =
      Keeps-bind (λ p m. AllMean m (tokens s) p) _ st _ _ (remap_params-Keeps (tokens s) st i)
        (λ p st' j h.
          Keeps-map (λ ps m. EachMean m ss ps) (λ ps m. EachMean m (s ∷ ss) ps) st' _ (λ ps. p ∷ ps)
            (remap_all-Keeps ss st' j)
            (λ ps m x hs. (AllMean-extend st'.merged m (tokens s) p x h, hs)))
