-- ===== src/Output/Database.antt =====
-- `ViatDb` of src/output/db/ViatDb.cpp. The database, which the pqxx library reaches, is a parameter:
-- its tables are of a type `D`, and each statement gives the rows' ids and the tables after it. What is
-- not modelled: an exception of the library, which nothing in the program catches.
use callx.Prelude.{
  ◌≤◌, ◌≡◌, ◌⊎◌, inl, inr, refl, sym, ap, ◌∙◌, ℤ, neg, List, [], ◌∷◌, ◌++◌, Option, none, some,
  Bytes, Option-cases, arith, length,
}

pub record Database (D : Type 0) : Type 0 where
  pub select_caller : Bytes → D → List ℤ
  pub insert_caller : Bytes → Bytes → D → List ℤ × D
  pub insert_call : ℤ → D → List ℤ × D

-- The id of a result with exactly one row.
abbrev pub single : List ℤ → Option ℤ
single [] = none
single (id ∷ []) = some id
single (id ∷ other ∷ rest) = none

module _ {D : Type 0} (db : Database D) where
  unfoldable pub db_caller_exists : Bytes → D → Option ℤ
  db_caller_exists uri d = single (db.select_caller uri d)

  unfoldable pub db_insert_caller : Bytes → Bytes → D → Option ℤ × D
  db_insert_caller name uri d =
      let (rows, after) = db.insert_caller name uri d in (single rows, after)

  unfoldable pub db_insert_call : ℤ → D → Option ℤ × D
  db_insert_call caller_id d =
      let (rows, after) = db.insert_call caller_id d in (single rows, after)

  -- The caller's id, of the row that exists or of a new one.
  abbrev caller_for : Option ℤ → Bytes → Bytes → D → Option ℤ × D
  caller_for none name uri d = db_insert_caller name uri d
  caller_for (some id) name uri d = (some id, d)

  -- `commit`, where there is an id; else the destructor of the transaction rolls back to `before`.
  abbrev commit : D → Option ℤ × D → ℤ × D
  commit before (none, after) = (neg 1, before)
  commit before (some call_id, after) = (call_id, after)

  abbrev call_for : D → Option ℤ × D → ℤ × D
  call_for before (none, after) = (neg 1, before)
  call_for before (some caller_id, after) = commit before (db_insert_call caller_id after)

  -- `insertCall`, over a connection that is there.
  unfoldable pub insert_call : Bytes → Bytes → D → ℤ × D
  insert_call name uri d = call_for d (caller_for (db_caller_exists uri d) name uri d)

-- What the tables promise: an insertion of a caller that gives a row adds it to the rows of its address,
-- and that of a call changes no callers.
pub record IsKeeping {D : Type 0} (db : Database D) : Type 0 where
  pub adds_caller :
      (name uri : Bytes) (d : D) (id : ℤ)
      → single (db.insert_caller name uri d).0 ≡ some id
      → db.select_caller uri (db.insert_caller name uri d).1 ≡ db.select_caller uri d ++ id ∷ []
  pub keeps_callers :
      (caller_id : ℤ) (d : D) (uri : Bytes)
      → db.select_caller uri (db.insert_call caller_id d).1 ≡ db.select_caller uri d

one_row : (rows : List ℤ) (id : ℤ) → single rows ≡ some id → rows ≡ id ∷ []
one_row [] id h = cc
one_row (a ∷ []) id h = ground arith
one_row (a ∷ b ∷ rows) id h = cc

no_row : (rows : List ℤ) → length rows ≤ 1 → single rows ≡ none → rows ≡ []
no_row [] l h = refl
no_row (a ∷ []) l h = cc
no_row (a ∷ b ∷ rows) l h = absurd (omega (arith, l))

module _ {D : Type 0} (db : Database D) (keeping : IsKeeping db) (name uri : Bytes) where
  caller_row :
      (d : D) (id : ℤ) (after : D)
      → length (db.select_caller uri d) ≤ 1
      → caller_for db (db_caller_exists db uri d) name uri d ≡ (some id, after)
      → db.select_caller uri after ≡ id ∷ []
  unfolding db_caller_exists db_insert_caller
  caller_row d id after few h = elim (Option-cases (single (db.select_caller uri d))) [
    | inl e ↦
        let g : (single (db.insert_caller name uri d).0, (db.insert_caller name uri d).1)
            ≡ (some id, after) =
          rw e at h in
        let made : single (db.insert_caller name uri d).0 ≡ some id = ap (λ p. p.0) g in
        let last : (db.insert_caller name uri d).1 ≡ after = ap (λ p. p.1) g in
        ap (db.select_caller uri) (sym last)
        ∙ keeping.adds_caller name uri d id made
        ∙ ap (λ rows. rows ++ id ∷ []) (no_row (db.select_caller uri d) few e)
    | inr (old, e) ↦
        let g : (some old, d) ≡ (some id, after) = rw e at h in
        let same : single (db.select_caller uri d) ≡ some id = e ∙ ap (λ p. p.0) g in
        ap (db.select_caller uri) (sym (ap (λ p. p.1) g)) ∙ one_row (db.select_caller uri d) id same
  ]

  call_for_cases :
      (before after : D) (id : ℤ)
      → db.select_caller uri after ≡ id ∷ []
      → (call_for db before (some id, after) ≡ (neg 1, before))
        ⊎ (db.select_caller uri (call_for db before (some id, after)).1 ≡ id ∷ [])
  unfolding db_insert_call
  call_for_cases before after id h = elim (Option-cases (single (db.insert_call id after).0)) [
    | inl e ↦ inl (rw e refl)
    | inr (call_id, e) ↦ inr (rw e (keeping.keeps_callers id after uri ∙ h))
  ]

  -- Over tables that keep the callers and have at most one of this address: `insertCall` gives -1 and
  -- leaves the tables as they were, or afterwards they have exactly one caller of the address.
  pub insert_call-one :
      (d : D)
      → length (db.select_caller uri d) ≤ 1
      → (insert_call db name uri d ≡ (neg 1, d))
        ⊎ ((id : ℤ) × (db.select_caller uri (insert_call db name uri d).1 ≡ id ∷ []))
  unfolding insert_call
  insert_call-one d few =
      let found = caller_for db (db_caller_exists db uri d) name uri d in
      elim (Option-cases found.0) [
        | inl e ↦ inl (ap (λ o. call_for db d (o, found.1)) e)
        | inr (id, e) ↦
            let row = caller_row d id found.1 few (ap (λ o. (o, found.1)) e) in
            elim (call_for_cases d found.1 id row) [
              | inl g ↦ inl (ap (λ o. call_for db d (o, found.1)) e ∙ g)
              | inr g ↦
                  inr (id, ap (λ o. db.select_caller uri (call_for db d (o, found.1)).1) e ∙ g)
            ]
      ]
