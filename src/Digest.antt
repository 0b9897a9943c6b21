-- ===== src/Digest.antt =====
-- The nightly failure digest: backend/scripts/failure_digest.py, from the rows of the query to the
-- issue's title and body. `str` prints a number; reading the files and printing the JSON are left out.
pub mod Normalize
pub mod Rows
pub mod Counts
pub mod Ranks
pub mod Body
pub mod Limit
pub mod Fences
use claim_automation_cloud.Prelude.{
  ℕ, zero, suc, ◌+◌, ◌-◌, Bool, true, false, not, ◌&&◌, ◌||◌, Option, none, some, List, [], ◌∷◌,
  ◌++◌, ◌==◌, ltb, leb, if◌then◌else◌, length, take,
}
use mathlib.Core.List.{reverse}
use claim_automation_cloud.Text.{Text, codes, text_eq, span}

-- What `_group` reads of a row.
pub record Row : Type 0 where
  pub item_type : Option Text
  pub severity_level : Option ℕ
  pub message : Text
  pub timestamp : Text
  pub details : Text

-- The key of a group: the item's type, the severity that it sorts by, and the normalised message.
pub record GroupKey : Type 0 where
  pub item_type : Option Text
  pub severity : ℕ
  pub message : Text

pub record Group : Type 0 where
  pub key : GroupKey
  pub label : Text
  pub count : ℕ
  pub first : Text
  pub last : Text
  pub details : Text

-- `_SEVERITY_LABELS.get(level, "ERROR")`
abbrev severity_name : Option ℕ → Text
severity_name none = codes "ERROR"
severity_name (some n) =
    if n == 4
    then codes "CRITICAL"
    else if n == 2
    then codes "WARNING"
    else if n == 1
    then codes "INFO"
    else if n == 0
    then codes "DEBUG"
    else codes "ERROR"

abbrev is_exception : Option Text → Bool
is_exception none = false
is_exception (some t) = text_eq t (codes "exception")

-- `_severity_label`
unfoldable pub severity_label : Row → Text
severity_label row =
    if is_exception row.item_type then codes "EXCEPTION" else severity_name row.severity_level

-- `_sort_severity`
abbrev pub sort_severity : Option ℕ → ℕ
sort_severity none = 3
sort_severity (some n) = n

-- `s < t` on texts, by code points.
unfoldable pub text_lt : Text → Text → Bool
text_lt s [] = false
text_lt [] (y ∷ ys) = true
text_lt (x ∷ xs) (y ∷ ys) = ltb x y || (x == y && text_lt xs ys)

abbrev zeros : ℕ → Text
zeros zero = []
zeros (suc n) = b'0' ∷ zeros n

-- `fraction.ljust(9, "0")`
abbrev ljust9 : Text → Text
ljust9 s = s ++ zeros (9 - length s)

unfoldable pub drop_zulu : Text → Text
drop_zulu [] = []
drop_zulu (c ∷ s) = if c == b'Z' then drop_zulu s else c ∷ s

-- `timestamp.rstrip("Z")`
abbrev rstrip_zulu : Text → Text
rstrip_zulu s = reverse (drop_zulu (reverse s))

abbrev fraction_key : Text → Text
fraction_key [] = zeros 9
fraction_key (dot ∷ fraction) = ljust9 fraction

-- `_ts_key`
unfoldable pub ts_key : Text → Text × Text
unfolding span drop_zulu
ts_key timestamp =
    let (base, rest) = span (λ c. not (c == b'.')) (rstrip_zulu timestamp) in
    (base, fraction_key rest)

-- The order of two keys as tuples.
abbrev pub key_lt : Text × Text → Text × Text → Bool
key_lt (a, b) (c, d) = text_lt a c || (text_eq a c && text_lt b d)

-- `ts_key(s) < ts_key(t)`
abbrev pub is_earlier : Text → Text → Bool
is_earlier s t = key_lt (ts_key s) (ts_key t)

abbrev type_eq : Option Text → Option Text → Bool
type_eq none none = true
type_eq (some s) (some t) = text_eq s t
type_eq _ _ = false

abbrev pub group_key_eq : GroupKey → GroupKey → Bool
group_key_eq a b =
    type_eq a.item_type b.item_type && (a.severity == b.severity && text_eq a.message b.message)

-- `normalize` is `normalize_message`.
module _ (normalize : Text → Text) where
  abbrev pub key_of : Row → GroupKey
  key_of row = record {
    item_type = row.item_type;
    severity = sort_severity row.severity_level;
    message = normalize row.message;
  }

  -- The group that `setdefault` puts in for a new key.
  abbrev pub fresh_group : Row → Group
  fresh_group row = record {
    key = key_of row;
    label = severity_label row;
    count = 0;
    first = row.timestamp;
    last = row.timestamp;
    details = row.details;
  }

  -- The four updates of the loop's body.
  abbrev pub absorb : Row → Group → Group
  absorb row g = record {
    key = g.key;
    label = g.label;
    count = g.count + 1;
    first = if is_earlier row.timestamp g.first then row.timestamp else g.first;
    last = if is_earlier g.last row.timestamp then row.timestamp else g.last;
    details = if ltb (length g.details) (length row.details) then row.details else g.details;
  }

  -- One turn of the loop, on the groups in the order in which their keys came.
  unfoldable pub add_row : Row → List Group → List Group
  add_row row [] = absorb row (fresh_group row) ∷ []
  add_row row (g ∷ gs) =
      let rest = add_row row gs in
      if group_key_eq g.key (key_of row) then absorb row g ∷ gs else g ∷ rest

  unfoldable pub add_rows : List Row → List Group → List Group
  unfolding add_row
  add_rows [] gs = gs
  add_rows (row ∷ rows) gs = add_rows rows (add_row row gs)

  -- `(-g["severity"], -g["count"])`: whether `a` comes strictly before `b`.
  abbrev pub outranks : Group → Group → Bool
  outranks a b =
      ltb b.key.severity a.key.severity || (a.key.severity == b.key.severity && ltb b.count a.count)

  -- `sorted`, which is stable.
  unfoldable pub insert_ranked : Group → List Group → List Group
  insert_ranked g [] = g ∷ []
  insert_ranked g (h ∷ hs) =
      let rest = insert_ranked g hs in if outranks h g then h ∷ rest else g ∷ h ∷ hs

  unfoldable pub rank : List Group → List Group
  unfolding insert_ranked
  rank [] = []
  rank (g ∷ gs) = insert_ranked g (rank gs)

  -- `_group`
  unfoldable pub group_rows : List Row → List Group
  unfolding add_rows rank
  group_rows rows = rank (add_rows rows [])
