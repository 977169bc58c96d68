-- ===== src/Repository/Draft/Bounds.antt =====
-- Placeholders within the values bound, and those of a SET list.
use primebrick_v3_dal.Base.{
  ℕ, ◌+◌, ◌≤◌, Bool, true, false, Option, none, some, List, [], ◌∷◌, ◌++◌, ◌≡◌, length,
  length-append, All, All-append, All-map, arith,
}
use primebrick_v3_dal.Query.Writer.{Piece, code, param, Sql}
use primebrick_v3_dal.Repository.Columns.{ColumnMeta, Written, ok, err, ◌>>=◌}
use primebrick_v3_dal.Repository.Draft.{
  WriteParam, quote, Draft, set_param, stamp, set_text, clear, bump, when,
}

-- What a computation that returns has.
abbrev pub Holds : {A : Type 0} → (A → Type 0) → Written A → Type 0
Holds P (ok a) = P a
Holds P (err e) = Unit

pub Holds-bind :
    {A B : Type 0} (P : A → Type 0) (Q : B → Type 0) (r : Written A) (f : A → Written B)
    → Holds P r
    → ((a : A) → P a → Holds Q (f a))
    → Holds Q (r >>= f)
Holds-bind P Q (ok a) f h k = k a h
Holds-bind P Q (err e) f h k = tt

pub Holds-any : {A : Type 0} (r : Written A) → Holds (λ _. Unit) r
Holds-any (ok a) = tt
Holds-any (err e) = tt

-- A placeholder is for one of the first `k` values.
abbrev pub Within : ℕ → Piece → Type 0
Within k (code s) = Unit
Within k (param n) = (1 ≤ n) × (n ≤ k)

abbrev pub InRange : ℕ → Sql → Type 0
InRange k sql = All (Within k) sql

Within-mono : (k l : ℕ) (p : Piece) → k ≤ l → Within k p → Within l p
Within-mono k l (code s) h w = tt
Within-mono k l (param n) h (a, b) = (a, omega (arith, b, h))

pub InRange-mono : (k l : ℕ) (sql : Sql) → k ≤ l → InRange k sql → InRange l sql
InRange-mono k l sql h w = All-map (Within k) (Within l) sql (λ p q. Within-mono k l p h q) w

pub AllInRange-mono : (k l : ℕ) (ps : List Sql) → k ≤ l → All (InRange k) ps → All (InRange l) ps
AllInRange-mono k l ps h w = All-map (InRange k) (InRange l) ps (λ s q. InRange-mono k l s h q) w

-- The placeholders of a draft's sets are for its own values.
abbrev pub InDraft : Draft → Type 0
InDraft d = All (InRange (length d.values)) d.sets

abbrev pub Drafts : Written Draft → Type 0
Drafts r = Holds InDraft r

-- One more value leaves room for the sets of before.
pub InDraft-push :
    (d : Draft) (v : WriteParam) (s : Sql)
    → InDraft d
    → InRange (length d.values + 1) s
    → InDraft (record { sets = d.sets ++ s ∷ []; values = d.values ++ v ∷ [] })
InDraft-push d v s h w =
    All-append _ d.sets (s ∷ [])
      (AllInRange-mono _ _ d.sets (omega (arith, length-append d.values (v ∷ []))) h)
      (InRange-mono _ _ s (omega (arith, length-append d.values (v ∷ []))) w, tt)

-- Where a set is added, one value is.
abbrev pub Pushed : Draft → Draft → Type 0
Pushed d e = InDraft e × (length e.values ≡ length d.values + 1)

pub set_param-Pushed :
    (c : ColumnMeta) (v : WriteParam) (d : Draft) → InDraft d → Holds (Pushed d) (set_param c v d)
unfolding set_param
set_param-Pushed c v d h =
    Holds-bind (λ _. Unit) _ (quote c.sql_name) _ (Holds-any _)
      (λ q _. (
        InDraft-push d v _ h (tt, (tt, ((omega arith, omega arith), tt))),
        omega (arith, length-append d.values (v ∷ [])),
      ))

Holds-weaken :
    {A : Type 0} (P Q : A → Type 0) (r : Written A) → Holds P r → ((a : A) → P a → Q a) → Holds Q r
Holds-weaken P Q (ok a) h k = k a h
Holds-weaken P Q (err e) h k = tt

pub stamp-InDraft :
    (o : Option ColumnMeta) (v : WriteParam) (d : Draft) → InDraft d → Drafts (stamp o v d)
unfolding stamp
stamp-InDraft none v d h = h
stamp-InDraft (some c) v d h =
    Holds-weaken (Pushed d) InDraft (set_param c v d) (set_param-Pushed c v d h) (λ e i. i.0)

pub bump-InDraft : (o : Option ColumnMeta) (d : Draft) → InDraft d → Drafts (bump o d)
unfolding bump
bump-InDraft none d h = h
bump-InDraft (some c) d h =
    Holds-bind (λ _. Unit) _ (quote c.sql_name) _ (Holds-any _)
      (λ q _. All-append _ d.sets _ h ((tt, (tt, (tt, (tt, tt)))), tt))

pub clear-InDraft : (o : Option ColumnMeta) (d : Draft) → InDraft d → Drafts (clear o d)
unfolding clear set_text
clear-InDraft none d h = h
clear-InDraft (some c) d h =
    Holds-bind (λ _. Unit) _ (quote c.sql_name) _ (Holds-any _)
      (λ q _. All-append _ d.sets _ h ((tt, (tt, tt)), tt))

pub when-InDraft :
    (b : Bool) (f : Draft → Written Draft) (d : Draft)
    → InDraft d
    → ((e : Draft) → InDraft e → Drafts (f e))
    → Drafts (when b f d)
unfolding when
when-InDraft true f d h k = k d h
when-InDraft false f d h k = h
