-- ===== src/Query/Render/Params.antt =====
-- Placeholders and bound values: what the renderer binds, and how it refers to it.
use primebrick_v3_dal.Base.{
  ℕ, ◌+◌, ◌==◌, Bool, true, false, List, [], ◌∷◌, ◌++◌, ◌≡◌, refl, sym, ap, ◌∙◌, arith, Text,
  length, length-append, append_assoc, append-nil,
}
use primebrick_v3_dal.Query.Dsl.{Value, ExprOperand}
use primebrick_v3_dal.Query.Writer.{
  Sql, code, param, txt, lit, Built, ok, err, ◌>>=◌, render_markers, render_expr_operand, on_char,
}

-- The numbers of the placeholders of a text, in order.
abbrev pub params : Sql → List ℕ
params [] = []
params (code s ∷ p) = params p
params (param n ∷ p) = n ∷ params p

pub params-append : (p q : Sql) → params (p ++ q) ≡ params p ++ params q
params-append [] q = refl
params-append (code s ∷ p) q = params-append p q
params-append (param n ∷ p) q = ap (λ ns. n ∷ ns) (params-append p q)

-- n, n + 1, …, one for each value
abbrev pub numbered : ℕ → List Value → List ℕ
numbered n [] = []
numbered n (v ∷ vs) = n ∷ numbered (n + 1) vs

numbered-append :
    (n : ℕ) (vs us : List Value)
    → numbered n (vs ++ us) ≡ numbered n vs ++ numbered (n + length vs) us
numbered-append n [] us = ap (λ k. numbered k us) (omega arith)
numbered-append n (v ∷ vs) us =
    ap (λ ns. n ∷ ns)
      (numbered-append (n + 1) vs us ∙ ap (λ k. numbered (n + 1) vs ++ numbered k us) (omega arith))

-- From the values `w` to the values `w'`: the new values stand behind the old ones, and the text
-- has one placeholder for each of them, in order.
abbrev pub Numbers : List Value → Sql → List Value → Type 0
Numbers w p w' = (vs : List Value) × (w' ≡ w ++ vs) × (params p ≡ numbered (length w + 1) vs)

pub Numbers-code : (w : List Value) (p : Sql) → params p ≡ [] → Numbers w p w
Numbers-code w p h = ([], sym (rw append-nil refl), h)

pub Numbers-append :
    (w w' w'' : List Value) (p q : Sql) → Numbers w p w' → Numbers w' q w'' → Numbers w (p ++ q) w''
Numbers-append w w' w'' p q (vs, e, h) (us, e', h') = (
  vs ++ us,
  e' ∙ ap (λ l. l ++ us) e ∙ append_assoc w vs us,
  params-append p q ∙ ap₂_append ∙ sym (numbered-append (length w + 1) vs us),
)
  where
    shift : length w' + 1 ≡ length w + 1 + length vs
    shift = omega (arith, ap length e, length-append w vs)

    ap₂_append :
        params p ++ params q ≡ numbered (length w + 1) vs ++ numbered (length w + 1 + length vs) us
    ap₂_append = rw (h, h', shift) refl

pub Numbers-add : (v : Value) (w : List Value) → Numbers w (param (length w + 1) ∷ []) (w ++ v ∷ [])
Numbers-add v w = (v ∷ [], refl, refl)

-- Text without placeholders behind.
pub Numbers-behind :
    (w w' : List Value) (p after : Sql)
    → params after ≡ []
    → Numbers w p w'
    → Numbers w (p ++ after) w'
Numbers-behind w w' p after a n = Numbers-append w w' w' p after n (Numbers-code w' after a)

-- Text without placeholders before and behind.
pub Numbers-wrap :
    (w w' : List Value) (p before after : Sql)
    → params before ≡ []
    → params after ≡ []
    → Numbers w p w'
    → Numbers w (before ++ p ++ after) w'
Numbers-wrap w w' p before after b a n =
    Numbers-behind w w' (before ++ p) after a
      (Numbers-append w w w' before p (Numbers-code w before b) n)

-- Two renderings with text between them.
pub Numbers-join :
    (w w' w'' : List Value) (p q middle : Sql)
    → params middle ≡ []
    → Numbers w p w'
    → Numbers w' q w''
    → Numbers w (p ++ middle ++ q) w''
Numbers-join w w' w'' p q middle b n m =
    Numbers-append w w' w'' (p ++ middle) q (Numbers-behind w w' p middle b n) m

-- Two renderings with a word between them.
pub Numbers-word :
    (w w' w'' : List Value) (p q : Sql) (word : Text)
    → Numbers w p w'
    → Numbers w' q w''
    → Numbers w (p ++ lit " " ++ txt word ++ lit " " ++ q) w''
Numbers-word w w' w'' p q word n m =
    Numbers-join w w' w'' (p ++ lit " " ++ txt word) q (lit " ") refl
      (Numbers-behind w w' (p ++ lit " ") (txt word) refl (Numbers-behind w w' p (lit " ") refl n))
      m

-- A rendering that succeeds is numbered so.
abbrev pub Sound : List Value → Built (Sql × List Value) → Type 0
Sound w (ok (p, w')) = Numbers w p w'
Sound w (err e) = Unit

pub Sound-bind :
    (w : List Value) (m : Built (Sql × List Value))
    (f : Sql × List Value → Built (Sql × List Value))
    → Sound w m
    → ((p : Sql) (w' : List Value) → Numbers w p w' → Sound w (f (p, w')))
    → Sound w (m >>= f)
Sound-bind w (ok (p, w')) f h k = k p w' h
Sound-bind w (err e) f h k = tt

pub Sound-text :
    {A : Type 0} (w : List Value) (m : Built A) (f : A → Built (Sql × List Value))
    → ((t : A) → Sound w (f t))
    → Sound w (m >>= f)
Sound-text w (ok t) f k = k t
Sound-text w (err e) f k = tt

-- More text behind what is rendered, or before it.
pub Sound-then :
    (w w' : List Value) (p : Sql) (m : Built (Sql × List Value))
    (f : Sql × List Value → Built (Sql × List Value))
    → Numbers w p w'
    → Sound w' m
    → ((q : Sql) (w'' : List Value) → Numbers w' q w'' → Sound w (f (q, w'')))
    → Sound w (m >>= f)
Sound-then w w' p (ok (q, w'')) f n h k = k q w'' h
Sound-then w w' p (err e) f n h k = tt

on_char-Sound :
    (b : Bool) (whole : Text) (c : ℕ) (rest : List Value → List Value → Built (Sql × List Value))
    → ((ps w : List Value) → Sound w (rest ps w))
    → (ps w : List Value) → Sound w (on_char b whole c rest ps w)
unfolding on_char
on_char-Sound true whole c rest h [] w = tt
on_char-Sound true whole c rest h (v ∷ ps) w =
    Sound-then w (w ++ v ∷ []) (param (length w + 1) ∷ []) _ _ (Numbers-add v w)
      (h ps (w ++ v ∷ []))
      (λ p w' n. Numbers-append w _ w' (param (length w + 1) ∷ []) p (Numbers-add v w) n)
on_char-Sound false whole c rest h ps w = Sound-bind w _ _ (h ps w) (λ p w' n. n)

pub render_markers-Sound :
    (whole s : Text) (ps w : List Value) → Sound w (render_markers whole s ps w)
unfolding render_markers
render_markers-Sound whole [] ps w = Numbers-code w [] refl
render_markers-Sound whole (c ∷ s) ps w =
    on_char-Sound (c == b'?') whole c (render_markers whole s) (render_markers-Sound whole s) ps w

pub render_expr_operand-Sound :
    (o : ExprOperand) (w : List Value) → Sound w (render_expr_operand o w)
unfolding render_expr_operand
render_expr_operand-Sound o w = render_markers-Sound o.sql o.sql o.params w
