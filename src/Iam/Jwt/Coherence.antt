-- ===== src/Iam/Jwt/Coherence.antt =====
-- The caches of keys against the table of keys: what is cached is what the table says.
use walmart_assignment.Base.{
  ◌≡◌, refl, sym, ap, subst, ◌∙◌, String, ℕ, ◌+◌, Option, none, some, List, ◌∷◌, Bool-cases, inl,
  inr, ltb, arith,
}
use mathlib.Core.Option.{some_inj}
use walmart_assignment.Base.Text.{str_eq, eq_iff}
use walmart_assignment.Base.Js.{ok, Outcome, Run-cases}
use walmart_assignment.Iam.Jwt.{
  KeyRow, CachedKey, ActiveKey, Keys, JwtServices, cache_get, key_ttl, decrypt_secret, load_key,
  fetch_from, fetch_key, load_active, active_from, fetch_active_key, rotate_keys,
}

module _ {W : Type 0} (j : JwtServices W) (secret_of : String → String) where
  -- The secret of a row, decrypted where it is encrypted, is that of its identifier.
  abbrev pub IsStored : KeyRow → Type 0
  IsStored row =
      (x : String) (u t : W) → decrypt_secret j row.secret u ≡ (ok x, t) → x ≡ secret_of row.id

  -- The table of keys: each identifier has one secret, and a lookup gives the row of its identifier.
  pub record IsTable : Type 0 where
    pub by_id :
        (id : String) (row : KeyRow) (w u : W)
        → j.find_key id w ≡ (ok (some row), u)
        → (row.id ≡ id) × IsStored row
    pub active : (row : KeyRow) (w u : W) → j.find_active w ≡ (ok (some row), u) → IsStored row

  -- What is cached is what the table says.
  abbrev pub IsCoherent : Keys W → Type 0
  IsCoherent s =
      ((id : String) (c : CachedKey) → cache_get id s.key_cache ≡ some c → c.secret ≡ secret_of id)
      × ((a : ActiveKey) → s.active_key ≡ some a → a.secret ≡ secret_of a.id)

  cache_get-cons :
      (k : String) (x : CachedKey) (cache : List (String × CachedKey))
      → x.secret ≡ secret_of k
      → ((id : String) (c : CachedKey) → cache_get id cache ≡ some c → c.secret ≡ secret_of id)
      → (id : String) (c : CachedKey) → cache_get id ((k, x) ∷ cache) ≡ some c
      → c.secret ≡ secret_of id
  cache_get-cons k x cache e old id c h = elim (Bool-cases (str_eq k id)) [
    | inr other ↦ old id c (rw other at h)
    | inl here ↦
        let same : k ≡ id = (eq_iff k id).0 here in
        let it : x ≡ c = some_inj.0 (rw here at h) in
        sym (ap (λ y. y.secret) it) ∙ (e ∙ ap secret_of same)
  ]

  load_key-IsCoherent :
      IsTable
      → (id x : String) (s t : Keys W) → IsCoherent s
      → load_key j id s ≡ (ok x, t)
      → (x ≡ secret_of id) × IsCoherent t
  unfolding load_key
  load_key-IsCoherent table id x s t coherent h = elim (Run-cases (j.find_key id s.world)) [
    | inr (e, w, b) ↦ absurd (ground arith)
    | inl (none, w, b) ↦ absurd (ground arith)
    | inl (some row, w, b) ↦
        let (same, stored) = table.by_id id row s.world w b in
        elim (Run-cases (decrypt_secret j row.secret w)) [
          | inr (e, u, d) ↦ absurd (ground arith)
          | inl (y, u, d) ↦
              let out = rw (b, d) at h in
              let value : y ≡ secret_of id = stored y w u d ∙ ap secret_of same in
              let given : Outcome.ok y ≡ ok x = ap (λ r. r.0) out in
              let got : y ≡ x = cc in
              (
                sym got ∙ value,
                subst IsCoherent (ap (λ r. r.1) out) (
                  cache_get-cons id (record { secret = y; expires = (j.now u).0 + key_ttl })
                      s.key_cache value coherent.0,
                  coherent.1,
                ),
              )
        ]
  ]

  fetch_from-IsCoherent :
      IsTable
      → (id x : String) (o : Option CachedKey) (s t : Keys W) → cache_get id s.key_cache ≡ o
      → IsCoherent s
      → fetch_from j id o s ≡ (ok x, t)
      → (x ≡ secret_of id) × IsCoherent t
  fetch_from-IsCoherent table id x none s t found coherent h =
      load_key-IsCoherent table id x s t coherent h
  fetch_from-IsCoherent table id x (some c) s t found coherent h =
      let (now, w) = j.now s.world in
      let later : Keys W = record s { world = w } in
      elim (Bool-cases (ltb now c.expires)) [
        | inr expired ↦ load_key-IsCoherent table id x later t coherent (rw expired at h)
        | inl live ↦
            let out = rw live at h in
            let given : Outcome.ok c.secret ≡ ok x = ap (λ r. r.0) out in
            let got : c.secret ≡ x = cc in
            (sym got ∙ coherent.0 id c found, subst IsCoherent (ap (λ r. r.1) out) coherent)
      ]

  -- A key that is fetched is that of the table, from the cache or from the row.
  pub fetch_key-IsCoherent :
      IsTable
      → (id x : String) (s t : Keys W) → IsCoherent s
      → fetch_key j id s ≡ (ok x, t)
      → (x ≡ secret_of id) × IsCoherent t
  unfolding fetch_key
  fetch_key-IsCoherent table id x s t =
      fetch_from-IsCoherent table id x (cache_get id s.key_cache) s t refl

  load_active-IsCoherent :
      IsTable
      → (a : ActiveKey) (s t : Keys W) → IsCoherent s
      → load_active j s ≡ (ok a, t)
      → (a.secret ≡ secret_of a.id) × IsCoherent t
  unfolding load_active
  load_active-IsCoherent table a s t coherent h = elim (Run-cases (j.find_active s.world)) [
    | inr (e, w, b) ↦ absurd (ground arith)
    | inl (none, w, b) ↦ absurd (ground arith)
    | inl (some row, w, b) ↦
        let stored = table.active row s.world w b in
        elim (Run-cases (decrypt_secret j row.secret w)) [
          | inr (e, u, d) ↦ absurd (ground arith)
          | inl (y, u, d) ↦
              let out = rw (b, d) at h in
              let value : y ≡ secret_of row.id = stored y w u d in
              let (now, v) = j.now u in
              let key : ActiveKey = record { id = row.id; secret = y; expires = now + key_ttl } in
              let given : Outcome.ok key ≡ ok a = ap (λ r. r.0) out in
              let got : key ≡ a = cc in
              (
                subst (λ k. k.secret ≡ secret_of k.id) got value,
                subst IsCoherent (ap (λ r. r.1) out) (
                  cache_get-cons row.id (record { secret = y; expires = (j.now v).0 + key_ttl })
                      s.key_cache value coherent.0,
                  λ k e. subst (λ k. k.secret ≡ secret_of k.id) (some_inj.0 e) value,
                ),
              )
        ]
  ]

  active_from-IsCoherent :
      IsTable
      → (a : ActiveKey) (o : Option ActiveKey) (s t : Keys W) → s.active_key ≡ o
      → IsCoherent s
      → active_from j o s ≡ (ok a, t)
      → (a.secret ≡ secret_of a.id) × IsCoherent t
  active_from-IsCoherent table a none s t found coherent h =
      load_active-IsCoherent table a s t coherent h
  active_from-IsCoherent table a (some k) s t found coherent h =
      let (now, w) = j.now s.world in
      let later : Keys W = record s { world = w } in
      elim (Bool-cases (ltb now k.expires)) [
        | inr expired ↦ load_active-IsCoherent table a later t coherent (rw expired at h)
        | inl live ↦
            let out = rw live at h in
            let given : Outcome.ok k ≡ ok a = ap (λ r. r.0) out in
            let got : k ≡ a = cc in
            (
              subst (λ x. x.secret ≡ secret_of x.id) got (coherent.1 k found),
              subst IsCoherent (ap (λ r. r.1) out) coherent,
            )
      ]

  -- The active key that is fetched has the secret that the table says.
  pub fetch_active_key-IsCoherent :
      IsTable
      → (a : ActiveKey) (s t : Keys W) → IsCoherent s
      → fetch_active_key j s ≡ (ok a, t)
      → (a.secret ≡ secret_of a.id) × IsCoherent t
  unfolding fetch_active_key
  fetch_active_key-IsCoherent table a s t = active_from-IsCoherent table a s.active_key s t refl

  rotated-IsCoherent :
      (row : KeyRow) (secret : String) (e : ℕ) (s : Keys W) (w : W)
      → secret_of row.id ≡ secret
      → IsCoherent s
      → IsCoherent (record {
        key_cache = (row.id, record { secret = secret; expires = e }) ∷ s.key_cache;
        active_key = none;
        world = w;
      })
  rotated-IsCoherent row secret e s w new coherent = (
    cache_get-cons row.id (record { secret = secret; expires = e }) s.key_cache (sym new)
        coherent.0,
    λ a h. absurd (cc),
  )

  -- A rotation that ends well keeps what is cached what the table says, where a new row has the secret
  -- that was made for it.
  pub rotate_keys-IsCoherent :
      ((secret : String) (row : KeyRow) (w u : W)
        → j.create_key secret w ≡ (ok row, u)
        → secret_of row.id ≡ secret)
      → (s t : Keys W) → IsCoherent s
      → rotate_keys j s ≡ (ok tt, t)
      → IsCoherent t
  unfolding rotate_keys
  rotate_keys-IsCoherent new s t coherent h = elim (Run-cases (j.find_active s.world)) [
    | inr (e, w, b) ↦ absurd (ground arith)
    | inl (none, w, b) ↦
        let (secret, w₁) = j.random_uuid w in
        elim (Run-cases (j.create_key secret w₁)) [
          | inr (e, u, d) ↦ absurd (ground arith)
          | inl (row, u, d) ↦
              let (now, v) = j.now u in
              subst IsCoherent (ap (λ r. r.1) (rw (b, d) at h)) (
                rotated-IsCoherent row secret (now + key_ttl) s
                  (j.publish "jwt_key_rotated" row.id v).1 (new secret row w₁ u d) coherent)
        ]
    | inl (some r, w, b) ↦
        let (secret, w₁) = j.random_uuid w in
        elim (Run-cases (j.create_key secret w₁)) [
          | inr (e, u, d) ↦ absurd (ground arith)
          | inl (row, u, d) ↦ elim (Run-cases (j.deactivate_key r.id u)) [
            | inr (e, x, f) ↦ absurd (ground arith)
            | inl (done, x, f) ↦
                let (now, v) = j.now x in
                subst IsCoherent (ap (λ r. r.1) (rw (b, d, f) at h)) (
                  rotated-IsCoherent row secret (now + key_ttl) s
                    (j.publish "jwt_key_rotated" row.id v).1 (new secret row w₁ u d) coherent)
          ]
        ]
  ]
