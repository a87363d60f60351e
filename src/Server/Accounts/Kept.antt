-- ===== src/Server/Accounts/Kept.antt =====
-- Which accounts the operations on the table of users keep: services/auth-service/src/repository.rs.
use bittuly.Prelude.{
  if◌then◌else◌, not, ℕ, ◌≡◌, ◌≢◌, refl, ◌∙◌, Option-cases, not, ◌||◌, Option, none, some, List, [],
  ◌∷◌, String, if◌then◌else◌, inl, inr, Bool-cases, any, filter, map, str_eq, str_eq_iff, arith,
}
use bittuly.Server.Jwt.{Claims}
use bittuly.Server.Accounts.{
  User, Db, Packages, CreateUserPayload, UpdateUserPayload, Result, ok, err, find, has_id,
  has_email, create_user, update_user, delete_user, update_found, updated, is_taken,
}
use bittuly.Server.Accounts.Handlers.{State, Response, status, finish_delete}

-- The account of a user is in both tables the same.
abbrev pub Keeps : String → Db → Db → Type 0
Keeps v db db' = find (has_id v) db'.users ≡ find (has_id v) db.users

pub find-filter :
    (v id : String) (us : List User)
    → v ≢ id
    → find (has_id v) (filter (λ u. not (has_id id u)) us) ≡ find (has_id v) us
find-filter v id [] ne = refl
find-filter v id (u ∷ us) ne =
    ground (arith, ne, str_eq_iff u.id v, str_eq_iff u.id id, find-filter v id us ne)

find-map :
    (v id : String) (now : ℕ) (payload : UpdateUserPayload) (us : List User)
    → v ≢ id
    → find (has_id v) (map (λ u. if has_id id u then updated now payload u else u) us)
      ≡ find (has_id v) us
find-map v id now payload [] ne = refl
find-map v id now payload (u ∷ us) ne =
    ground (arith, ne, str_eq_iff u.id v, str_eq_iff u.id id, find-map v id now payload us ne)

find-id : (id : String) (us : List User) (u : User) → find (has_id id) us ≡ some u → u.id ≡ id
find-id id [] u e = cc
find-id id (w ∷ us) u e = ground (arith, e, str_eq_iff w.id id, find-id id us u)

pub delete_user-Keeps : (v id : String) (db : Db) → v ≢ id → Keeps v db (delete_user db id).0
unfolding delete_user
delete_user-Keeps v id db ne = elim (Bool-cases db.up) [
  | inl b ↦ rw b (find-filter v id db.users ne)
  | inr b ↦ rw b refl
]

update_found-Keeps :
    (v id : String) (now : ℕ) (db : Db) (payload : UpdateUserPayload) (o : Option User)
    → v ≢ id
    → find (has_id id) db.users ≡ o
    → Keeps v db (update_found now db payload o).0
update_found-Keeps v id now db payload none ne e = refl
update_found-Keeps v id now db payload (some u) ne e =
    find-map v u.id now payload db.users (λ q. ne (q ∙ find-id id db.users u e))

pub update_user-Keeps :
    (v id : String) (now : ℕ) (db : Db) (payload : UpdateUserPayload)
    → v ≢ id
    → Keeps v db (update_user now db id payload).0
unfolding update_user
update_user-Keeps v id now db payload ne =
    elim (Bool-cases (not db.up || is_taken id payload.email db.users)) [
      | inl b ↦ rw b refl
      | inr b ↦ rw b (update_found-Keeps v id now db payload (find (has_id id) db.users) ne refl)
    ]

pub create_user-Keeps :
    (v id : String) (now : ℕ) (db : Db) (payload : CreateUserPayload)
    → v ≢ id
    → Keeps v db (create_user now id db payload).0
unfolding create_user
create_user-Keeps v id now db payload ne =
    elim (Bool-cases (not db.up || any (λ w. has_id id w || has_email payload.email w) db.users)) [
      | inl b ↦ rw b refl
      | inr b ↦ rw b (ground (arith, ne, str_eq_iff id v))
    ]

-- The shape of the three handlers of an account.
abbrev pub own : Packages → State → Claims → String → (String → State × Response) → State × Response
own p s claims user_id f = elim (p.parse_uuid user_id) [
  | none ↦ (s, status 400)
  | some id ↦ if not (str_eq id claims.sub) then (s, status 403) else f id
]

-- What a handler of an account does is done to the account of the claims.
pub own-Keeps :
    (v : String) (p : Packages) (s : State) (claims : Claims) (user_id : String)
    (f : String → State × Response)
    → ((id : String) → id ≡ claims.sub → Keeps v s.primary (f id).0.primary)
    → Keeps v s.primary (own p s claims user_id f).0.primary
own-Keeps v p s claims user_id f h = elim (Option-cases (p.parse_uuid user_id)) [
  | inl e ↦ rw (own, e) refl
  | inr (id, e) ↦ elim (Bool-cases (str_eq id claims.sub)) [
    | inl b ↦ rw (own, e, b) (h id ((str_eq_iff id claims.sub).0 b))
    | inr b ↦ rw (own, e, b) refl
  ]
]

pub finish_delete-primary :
    (s : State) (id : String) (r : Result (Unit {0})) → (finish_delete s id r).0.primary ≡ s.primary
finish_delete-primary s id err = refl
finish_delete-primary s id (ok u) = elim (Bool-cases s.broker_up) [
  | inl b ↦ rw b refl
  | inr b ↦ rw b refl
]
