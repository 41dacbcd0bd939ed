-- ===== src/Repository.antt =====
-- The TypeORM repositories, which the services call. They are not code of the repository, so each
-- is a parameter: the queries on the rows of a table, with what TypeORM and PostgreSQL document.
-- A query without an order returns its rows in any order, and a write may move rows.
pub mod Queries
pub mod Listed
use gig_drive.Shared.{
  ℕ, Bool, true, false, not, ◌≡◌, ◌≢◌, Option, none, some, List, Mem, Perm, filter, length, upsert,
  erase, Keyed,
}

pub record Repository {E : Type 0} (key : E → ℕ) : Type 0 where
  -- `find({ where })`
  pub find : (E → Bool) → List E → List E
  -- `findOne({ where })` and `findOneBy(where)`
  pub find_one : (E → Bool) → List E → Option E
  -- `count({ where })` and `countBy(where)`
  pub count : (E → Bool) → List E → ℕ
  -- `save(entity)`: the row with the primary key of the entity is written, or a row is added.
  pub save : E → List E → List E
  -- `remove(entity)`
  pub remove : E → List E → List E
  -- `delete(where)`
  pub delete : (E → Bool) → List E → List E
  -- The uuid that the database generates for a new row.
  pub new_id : List E → ℕ
  pub find_rows : (p : E → Bool) (rows : List E) → Perm (find p rows) (filter p rows)
  pub find_one_hit :
      (p : E → Bool) (rows : List E) (e : E) → find_one p rows ≡ some e → Mem e rows × (p e ≡ true)
  pub find_one_miss :
      (p : E → Bool) (rows : List E) → find_one p rows ≡ none → (e : E) → Mem e rows → p e ≡ false
  pub count_rows : (p : E → Bool) (rows : List E) → count p rows ≡ length (filter p rows)
  pub save_rows : (e : E) (rows : List E) → Perm (save e rows) (upsert key e rows)
  pub remove_rows : (e : E) (rows : List E) → Perm (remove e rows) (erase key e rows)
  pub delete_rows :
      (p : E → Bool) (rows : List E) → Perm (delete p rows) (filter (λ e. not (p e)) rows)
  pub new_id_unused : (rows : List E) (e : E) → Mem e rows → key e ≢ new_id rows
