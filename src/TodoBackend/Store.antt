-- ===== src/TodoBackend/Store.antt =====
-- examples/todobackend.rs: the entries and the database (`impl Database for Context`). A `HashMap` is
-- an association list with the newest key first.
use rotor_http.Prelude.{
  ℕ, ◌+◌, ◌≤◌, ◌<◌, ◌≡◌, refl, Bool, true, false, ◌==◌, if◌then◌else◌, Bool-cases, inl, inr, List,
  [], ◌∷◌, ◌++◌, arith, Bytes, codes, Option, none, some, Outcome, ret, ◌>>=◌, ◌>>◌, assert,
  add_u64,
}
use rotor_http.Std.Radix.{to_string}

pub record Todo : Type 0 where
  pub url : Option Bytes
  pub title : Bytes
  pub completed : Bool
  pub order : ℕ

pub record TodoPatch : Type 0 where
  pub title : Option Bytes
  pub completed : Option Bool
  pub order : Option ℕ

pub record Context : Type 0 where
  pub last_id : ℕ
  pub database : List (ℕ × Todo)

unfoldable pub set_url : ℕ → Todo → Todo
set_url id todo = record todo { url = some (codes "http://localhost:3000/todo/" ++ to_string id) }

-- What a patch says, or what was there.
abbrev pub patched {ℓ} : {A : Type ℓ} → Option A → A → A
patched none old = old
patched (some new) old = new

unfoldable pub patch : TodoPatch → Todo → Todo
patch p todo = record todo {
  title = patched p.title todo.title;
  completed = patched p.completed todo.completed;
  order = patched p.order todo.order;
}

unfoldable pub lookup : ℕ → List (ℕ × Todo) → Option Todo
lookup id [] = none
lookup id ((k, todo) ∷ db) = if k == id then some todo else lookup id db

unfoldable pub without : ℕ → List (ℕ × Todo) → List (ℕ × Todo)
without id [] = []
without id ((k, todo) ∷ db) = let rest = without id db in if k == id then rest else (k, todo) ∷ rest

unfoldable pub replace : ℕ → Todo → List (ℕ × Todo) → List (ℕ × Todo)
replace id new [] = []
replace id new ((k, todo) ∷ db) =
    let rest = replace id new db in if k == id then (k, new) ∷ db else (k, todo) ∷ rest

unfoldable pub fresh_id : Context → Outcome (ℕ × Context)
fresh_id c = do id ← add_u64 c.last_id 1; ret (id, record c { last_id = id })

abbrev pub is_none {ℓ} : {A : Type ℓ} → Option A → Bool
is_none none = true
is_none (some a) = false

-- `assert!(self.database.insert(id, todo).is_none())`
unfoldable pub create : ℕ → Todo → Context → Outcome Context
create id todo c = do
  assert (is_none (lookup id c.database))
  ret (record c { database = (id, todo) ∷ c.database })

unfoldable pub clear : Context → Context
clear c = record c { database = [] }

unfoldable pub get : ℕ → Context → Option Todo
get id c = lookup id c.database

-- What is written through `get_mut`.
unfoldable pub put : ℕ → Todo → Context → Context
put id todo c = record c { database = replace id todo c.database }

unfoldable pub delete : ℕ → Context → Context
delete id c = record c { database = without id c.database }

-- Each key once, all below a bound.
abbrev pub KeysBelow : ℕ → List (ℕ × Todo) → Type 0
KeysBelow n [] = Unit
KeysBelow n ((k, todo) ∷ db) = (k < n) × KeysBelow k db

-- No id was given out twice, and none above the last one.
abbrev pub WellFormed : Context → Type 0
WellFormed c = KeysBelow (c.last_id + 1) c.database

KeysBelow-weaken : (m n : ℕ) (db : List (ℕ × Todo)) → m ≤ n → KeysBelow m db → KeysBelow n db
KeysBelow-weaken m n [] le h = tt
KeysBelow-weaken m n ((k, todo) ∷ db) le h = (omega (arith, h.0), h.1)

lookup-fresh : (n id : ℕ) (db : List (ℕ × Todo)) → n ≤ id → KeysBelow n db → lookup id db ≡ none
unfolding lookup
lookup-fresh n id [] le h = refl
lookup-fresh n id ((k, todo) ∷ db) le h =
    let other : (k == id) ≡ false = ground (arith, h.0) in
    rw (other, lookup-fresh k id db (omega (arith, h.0)) h.1)

KeysBelow-without : (id n : ℕ) (db : List (ℕ × Todo)) → KeysBelow n db → KeysBelow n (without id db)
unfolding without
KeysBelow-without id n [] h = tt
KeysBelow-without id n ((k, todo) ∷ db) h = elim (Bool-cases (k == id)) [
  | inl same ↦
      rw same (KeysBelow-without id n db (KeysBelow-weaken k n db (omega (arith, h.0)) h.1))
  | inr other ↦ rw other (h.0, KeysBelow-without id k db h.1)
]

KeysBelow-replace :
    (id : ℕ) (new : Todo) (n : ℕ) (db : List (ℕ × Todo))
    → KeysBelow n db
    → KeysBelow n (replace id new db)
unfolding replace
KeysBelow-replace id new n [] h = tt
KeysBelow-replace id new n ((k, todo) ∷ db) h = elim (Bool-cases (k == id)) [
  | inl same ↦ rw same (h.0, h.1)
  | inr other ↦ rw other (h.0, KeysBelow-replace id new k db h.1)
]

pub WellFormed-delete : (id : ℕ) (c : Context) → WellFormed c → WellFormed (delete id c)
unfolding delete
WellFormed-delete id c h = KeysBelow-without id (c.last_id + 1) c.database h

pub WellFormed-put :
    (id : ℕ) (todo : Todo) (c : Context) → WellFormed c → WellFormed (put id todo c)
unfolding put
WellFormed-put id todo c h = KeysBelow-replace id todo (c.last_id + 1) c.database h

pub WellFormed-clear : (c : Context) → WellFormed (clear c)
unfolding clear
WellFormed-clear c = tt

-- The context with an entry more, under the next id.
abbrev pub grown : Todo → Context → Context
grown todo c = record { last_id = c.last_id + 1; database = (c.last_id + 1, todo) ∷ c.database }

pub create-grown :
    (todo : Todo) (c : Context)
    → WellFormed c
    → create (c.last_id + 1) todo (record c { last_id = c.last_id + 1 }) ≡ ret (grown todo c)
unfolding create
create-grown todo c h = rw (lookup-fresh (c.last_id + 1) (c.last_id + 1) c.database (omega arith) h)

pub WellFormed-grown : (todo : Todo) (c : Context) → WellFormed c → WellFormed (grown todo c)
WellFormed-grown todo c h = (omega arith, h)
