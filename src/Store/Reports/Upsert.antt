-- ===== src/Store/Reports/Upsert.antt =====
-- The loop of SaveReports of internal/store/reports.go, against a lookup by report id.
use tlsrpt_digest.Base.{
  ◌≡◌, refl, sym, ◌∙◌, ℕ, zero, suc, ◌+◌, String, str_eq, eq_iff, Option, none, some, List, [], ◌∷◌,
  ◌++◌, length, length-append, set, if◌then◌else◌, arith,
}
use tlsrpt_digest.Tlsrpt.{Report}
use tlsrpt_digest.Store.Types.{ReportInput}
use tlsrpt_digest.Store.Reports.{
  Index, put, index_reports, store_report, upsert_all, upsert_reports,
}

-- the report with this id that stands last
abbrev pub lookup : String → List Report → Option Report
lookup id [] = none
lookup id (r ∷ rs) = elim (lookup id rs) [
  | some x ↦ some x
  | none ↦ if str_eq r.report_id id then some r else none
]

-- its place
abbrev place : String → List Report → Option ℕ
place id [] = none
place id (r ∷ rs) = elim (place id rs) [
  | some i ↦ some (suc i)
  | none ↦ if str_eq r.report_id id then some 0 else none
]

-- no two reports have the same id
abbrev pub Unique : List Report → Type 0
Unique [] = Unit
Unique (r ∷ rs) = (lookup r.report_id rs ≡ none) × Unique rs

abbrev pub or_else : {A : Type 0} → Option A → Option A → Option A
or_else (some a) o = some a
or_else none o = o

-- the last input with this id
abbrev pub last_input : String → List ReportInput → Option Report
last_input id [] = none
last_input id (x ∷ xs) =
    or_else (last_input id xs) (if str_eq x.report.report_id id then some x.report else none)

abbrev replaced : Report → String → Option Report → Option Report
replaced r id o = if str_eq r.report_id id then some r else o

lookup-append :
    (id : String) (r : Report) (rs : List Report)
    → lookup id (rs ++ (r ∷ [])) ≡ replaced r id (lookup id rs)
lookup-append id r [] = refl
lookup-append id r (x ∷ xs) = ground (arith, lookup-append id r xs)

place-append :
    (id : String) (r : Report) (rs : List Report)
    → place id (rs ++ (r ∷ [])) ≡ (if str_eq r.report_id id then some (length rs) else place id rs)
place-append id r [] = refl
place-append id r (x ∷ xs) = ground (arith, place-append id r xs)

-- what it means for the first report that its id stands at the place `suc i`, or at 0
place-suc :
    (id : String) (x : Report) (xs : List Report) (i : ℕ)
    → place id (x ∷ xs) ≡ some (suc i)
    → place id xs ≡ some i
place-suc id x xs i h = ground arith

place_zero :
    (id : String) (x : Report) (xs : List Report)
    → place id (x ∷ xs) ≡ some 0
    → (place id xs ≡ none) × (x.report_id ≡ id)
place_zero id x xs h = ground (arith, eq_iff x.report_id id)

lookup_of_place : (id : String) (rs : List Report) → place id rs ≡ none → lookup id rs ≡ none
lookup_of_place id [] h = refl
lookup_of_place id (x ∷ xs) h = ground (arith, lookup_of_place id xs)

place_of_lookup : (id : String) (rs : List Report) → lookup id rs ≡ none → place id rs ≡ none
place_of_lookup id [] h = refl
place_of_lookup id (x ∷ xs) h = ground (arith, place_of_lookup id xs)

place-set :
    (id : String) (r : Report) (rs : List Report) (i : ℕ)
    → place r.report_id rs ≡ some i
    → place id (set rs i r) ≡ place id rs
place-set id r [] i h = refl
place-set id r (x ∷ xs) zero h = let (_, e) = place_zero r.report_id x xs h in ground (arith, e)
place-set id r (x ∷ xs) (suc i) h = simp (place-set id r xs i (place-suc r.report_id x xs i h))

lookup-set :
    (id : String) (r : Report) (rs : List Report) (i : ℕ)
    → place r.report_id rs ≡ some i
    → lookup id (set rs i r) ≡ replaced r id (lookup id rs)
lookup-set id r [] i h = absurd (ground arith)
lookup-set id r (x ∷ xs) zero h =
    let (n, e) = place_zero r.report_id x xs h in
    let m = lookup_of_place r.report_id xs n in
    ground (arith, eq_iff x.report_id id, eq_iff r.report_id id)
lookup-set id r (x ∷ xs) (suc i) h =
    let ih = lookup-set id r xs i (place-suc r.report_id x xs i h) in ground arith

Unique-append :
    (r : Report) (rs : List Report)
    → lookup r.report_id rs ≡ none
    → Unique rs
    → Unique (rs ++ (r ∷ []))
Unique-append r [] n u = (refl, tt)
Unique-append r (x ∷ xs) n u = (
  ground (
    arith,
    lookup-append x.report_id r xs,
    eq_iff r.report_id x.report_id,
    eq_iff x.report_id r.report_id,
  ),
  Unique-append r xs (ground arith) u.1,
)

Unique-set :
    (r : Report) (rs : List Report) (i : ℕ)
    → place r.report_id rs ≡ some i
    → Unique rs
    → Unique (set rs i r)
Unique-set r [] i h u = tt
Unique-set r (x ∷ xs) zero h u =
    (lookup_of_place r.report_id xs (place_zero r.report_id x xs h).0, u.1)
Unique-set r (x ∷ xs) (suc i) h u =
    let j = place-suc r.report_id x xs i h in
    let m = place_of_lookup x.report_id xs u.0 in
    (
      ground (arith, lookup-set x.report_id r xs i j, eq_iff r.report_id x.report_id),
      Unique-set r xs i j u.1,
    )

-- the map of the loop holds the place of each report
abbrev Agrees : List Report → Index → Type 0
Agrees rs index = (id : String) → index id ≡ place id rs

index_reports_from :
    (id : String) (i : ℕ) (rs : List Report) (index : Index)
    → index_reports i rs index id ≡ elim (place id rs) [ some k ↦ some (i + k) | none ↦ index id ]
index_reports_from id i [] index = refl
index_reports_from id i (r ∷ rs) index =
    ground (arith, index_reports_from id (suc i) rs (put r.report_id i index))

index_reports-Agrees : (rs : List Report) → Agrees rs (index_reports 0 rs (λ _. none))
index_reports-Agrees rs id = ground (arith, index_reports_from id 0 rs (λ _. none))

-- what one turn of the loop does
record Stored (r : Report) (rs : List Report) (out : List Report × Index) : Type 0 where
  agrees : Agrees out.0 out.1
  lookups : (id : String) → lookup id out.0 ≡ replaced r id (lookup id rs)
  unique : Unique rs → Unique out.0

store_report-Stored :
    (r : Report) (rs : List Report) (index : Index)
    → Agrees rs index
    → (o : Option ℕ) → index r.report_id ≡ o
    → Stored r rs (store_report r o rs index)
store_report-Stored r rs index a (some i) e =
    let p : place r.report_id rs ≡ some i = sym (a r.report_id) ∙ e in
    record {
      agrees = λ id. a id ∙ sym (place-set id r rs i p);
      lookups = λ id. lookup-set id r rs i p;
      unique = λ u. Unique-set r rs i p u;
    }
store_report-Stored r rs index a none e =
    let p : place r.report_id rs ≡ none = sym (a r.report_id) ∙ e in
    record {
      agrees = λ id. ground (arith, a id, place-append id r rs, length-append rs (r ∷ []));
      lookups = λ id. lookup-append id r rs;
      unique = λ u. Unique-append r rs (lookup_of_place r.report_id rs p) u;
    }

upsert_all-lookup :
    (id : String) (inputs : List ReportInput) (rs : List Report) (index : Index)
    → Agrees rs index
    → lookup id (upsert_all inputs (rs, index)) ≡ or_else (last_input id inputs) (lookup id rs)
upsert_all-lookup id [] rs index a = refl
upsert_all-lookup id (x ∷ xs) rs index a =
    let out = store_report x.report (index x.report.report_id) rs index in
    let k = store_report-Stored x.report rs index a (index x.report.report_id) refl in
    ground (arith, upsert_all-lookup id xs out.0 out.1 k.agrees, k.lookups id)

upsert_all-Unique :
    (inputs : List ReportInput) (rs : List Report) (index : Index)
    → Agrees rs index
    → Unique rs
    → Unique (upsert_all inputs (rs, index))
upsert_all-Unique [] rs index a u = u
upsert_all-Unique (x ∷ xs) rs index a u =
    let out = store_report x.report (index x.report.report_id) rs index in
    let k = store_report-Stored x.report rs index a (index x.report.report_id) refl in
    upsert_all-Unique xs out.0 out.1 k.agrees (k.unique u)

-- Storing the inputs and then looking an id up gives the last input with the id, or, where no input
-- has it, the report that the list had for it; and where no two reports of the list have the same
-- id, no two of the result have.
pub upsert_reports_lem :
    (inputs : List ReportInput) (rs : List Report)
    → ((id : String)
        → lookup id (upsert_reports inputs rs) ≡ or_else (last_input id inputs) (lookup id rs))
      × (Unique rs → Unique (upsert_reports inputs rs))
unfolding upsert_reports
upsert_reports_lem inputs rs = (
  λ id. upsert_all-lookup id inputs rs (index_reports 0 rs (λ _. none)) (index_reports-Agrees rs),
  λ u. upsert_all-Unique inputs rs (index_reports 0 rs (λ _. none)) (index_reports-Agrees rs) u,
)
