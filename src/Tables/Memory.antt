-- ===== src/Tables/Memory.antt =====
-- A table service in memory, which never fails: the laws of Tables/Laws can be met.
use claim_automation_cloud.Prelude.{
  ℕ, suc, ◌≡◌, ◌≢◌, refl, ap, ◌∙◌, sym, Bool, true, false, ◌&&◌, Option, none, some, [], arith,
  Bool-cases, inl, inr, if◌then◌else◌, ◌==◌,
}
use claim_automation_cloud.Text.{codes, text_eq, text_eq_iff, text_eq_refl}
use claim_automation_cloud.Exec.{
  Error, Result, ok, err, resource_exists, resource_modified, resource_not_found,
}
use claim_automation_cloud.Tables.{Props, Key, Entity, TableService}
use claim_automation_cloud.Tables.Laws.{TableLaws}

pub record Memory : Type 0 where
  pub rows : Key → Option Entity
  pub next_tag : ℕ

abbrev pub key_eq : Key → Key → Bool
key_eq a b = text_eq a.table b.table && (text_eq a.partition b.partition && text_eq a.row b.row)

abbrev pub put : Key → Option Entity → Memory → Memory
put k e m = record { rows = λ j. if key_eq j k then e else m.rows j; next_tag = suc m.next_tag }

abbrev entity : Props → Memory → Entity
entity p m = record { props = p; etag = m.next_tag }

abbrev read : Option Entity → Memory → Result Entity × Memory
read none m = (err (resource_not_found (codes "ResourceNotFound")), m)
read (some e) m = (ok e, m)

abbrev create : Option Entity → Key → Props → Memory → Result (Unit {0}) × Memory
create none k p m = (ok tt, put k (some (entity p m)) m)
create (some e) k p m = (err resource_exists, m)

abbrev replace_row : Option Entity → Key → Props → ℕ → Memory → Result (Unit {0}) × Memory
replace_row none k p tag m = (err (resource_not_found (codes "ResourceNotFound")), m)
replace_row (some e) k p tag m =
    if e.etag == tag then (ok tt, put k (some (entity p m)) m) else (err resource_modified, m)

abbrev remove : Option Entity → Key → Memory → Result (Unit {0}) × Memory
remove none k m = (err (resource_not_found (codes "ResourceNotFound")), m)
remove (some e) k m = (ok tt, put k none m)

abbrev pub memory : TableService Memory
memory = record {
  create_table = λ name m. (ok tt, m);
  get_entity = λ k m. read (m.rows k) m;
  upsert_entity = λ k p m. (ok tt, put k (some (entity p m)) m);
  create_entity = λ k p m. create (m.rows k) k p m;
  update_entity = λ k p tag m. replace_row (m.rows k) k p tag m;
  delete_entity = λ k m. remove (m.rows k) k m;
  query_partition = λ table partition m. (ok [], m);
}

key_eq_refl : (k : Key) → key_eq k k ≡ true
key_eq_refl k = rw (text_eq_refl k.table, text_eq_refl k.partition, text_eq_refl k.row)

key_eq-ne : (j k : Key) → j ≢ k → key_eq j k ≡ false
key_eq-ne j k h = elim (Bool-cases (key_eq j k)) [
  | inl same ↦ absurd (
      h (
        ground (
          arith,
          text_eq_iff j.table k.table,
          text_eq_iff j.partition k.partition,
          text_eq_iff j.row k.row,
        )))
  | inr other ↦ other
]

read_ok :
    (o : Option Entity) (m m' : Memory) (e : Entity)
    → read o m ≡ (ok e, m')
    → (o ≡ some e) × (m ≡ m')
read_ok none m m' e h = ground arith
read_ok (some x) m m' e h = ground arith

read_err :
    (o : Option Entity) (m m' : Memory) (x : Error) → read o m ≡ (err x, m') → (o ≡ none) × (m ≡ m')
read_err none m m' x h = ground arith
read_err (some e) m m' x h = ground arith

create_others :
    (o : Option Entity) (k j : Key) (p : Props) (m : Memory)
    → j ≢ k
    → (create o k p m).1.rows j ≡ m.rows j
create_others none k j p m h = rw (key_eq-ne j k h)
create_others (some e) k j p m h = refl

pub memory-TableLaws : TableLaws memory
memory-TableLaws = record {
  row = λ m k. m.rows k;
  get_ok = λ k m {e} {w' = m'} h.
      let (a, b) = read_ok (m.rows k) m m' e h in (a, λ j. ap (λ (x : Memory). x.rows j) (sym b));
  get_err = λ k m {x} {w' = m'} h.
      let (a, b) = read_err (m.rows k) m m' x h in
      (λ _. a, λ j. ap (λ (y : Memory). y.rows j) (sym b));
  upsert_ok = λ k p m {u} {w' = m'} h.
      let q = ap (λ (y : Result (Unit {0}) × Memory). y.1) (sym h) in
      (
        m.next_tag,
        ap (λ (y : Memory). y.rows k) q ∙ (rw (key_eq_refl k)),
        λ j ne. ap (λ (y : Memory). y.rows j) q ∙ (rw (key_eq-ne j k ne)),
      );
  create_others = λ k p m j ne. create_others (m.rows k) k j p m ne;
}

abbrev pub empty_memory : Memory
empty_memory = record { rows = λ k. none; next_tag = 0 }
