-- ===== src/Plugin/Cache.antt =====
-- The compile cache (cool-next/plugin/host/manager/cache.go). The entries stand in the order in which
-- they were made; the map from an artifact's SHA to its entry is the flag `in_map`. The goroutines of
-- the source are events of their own: the end of a compilation, each entry that `finishClose` gets
-- to, and the end of an `acquire`, which waits. `made` and `closes` count the products of an entry
-- and the calls of Close on them.
pub mod Events
pub mod Phases
pub mod Counting
pub mod Products
use cool_admin_go_next.Common.{
  ℕ, zero, suc, ◌+◌, ◌-◌, ◌==◌, Bool, true, false, not, List, [], ◌∷◌, ◌++◌, map, Text, text_eq,
  length, get_or, Option, none, some, all, between, if◌then◌else◌, ◌&&◌, ◌||◌,
}

pub record Entry : Type 0 where
  pub sha : Text
  pub compiled : Bool
  pub has_error : Bool
  pub references : ℕ
  pub is_compiling : Bool
  pub is_closed : Bool
  pub cancelled : Bool
  pub in_map : Bool
  pub awaited : Bool
  pub holders : List Bool
  pub made : ℕ
  pub closes : ℕ

pub record Cache : Type 0 where
  pub entries : List Entry
  pub closed : Bool

abbrev pub new_cache : Cache
new_cache = record { entries = []; closed = false }

abbrev pub one_if : Bool → ℕ
one_if true = 1
one_if false = 0

-- `checkSHA`
unfoldable pub check_sha : Text → Bool
check_sha sha = length sha == 64 && all (λ c. between b'0' b'9' c || between b'a' b'f' c) sha

abbrev pub new_entry : Text → Entry
new_entry sha = record {
  sha = sha;
  compiled = false;
  has_error = false;
  references = 1;
  is_compiling = true;
  is_closed = false;
  cancelled = false;
  in_map = true;
  awaited = false;
  holders = true ∷ [];
  made = 0;
  closes = 0;
}

-- One more reference, which is held; its number is the number of those before it.
abbrev pub join_entry : Entry → Entry
join_entry e = record e { references = suc e.references; holders = e.holders ++ true ∷ [] }

-- The product, if there is one, is closed outside the locks.
abbrev pub close_product : Entry → Entry
close_product e = record e { compiled = false; closes = one_if e.compiled + e.closes }

abbrev pub forget_entry : Entry → Entry
forget_entry e = record e { in_map = false; is_closed = true }

-- `completeCompile`, with a product or an error.
unfoldable pub complete_compile : Bool → Bool → Entry → Entry
complete_compile closed success e =
    let done = record e {
      compiled = success;
      has_error = not success;
      is_compiling = false;
      cancelled = true;
      made = one_if success + e.made;
    } in
    if not success || closed || e.references == 0
    then (if closed then forget_entry done else close_product (forget_entry done))
    else done

-- The last reference is gone.
abbrev pub abandon : Entry → Entry
abandon e =
    if e.is_compiling
    then record e { cancelled = true }
    else if e.is_closed
    then record e { in_map = false }
    else close_product (forget_entry e)

abbrev pub release_held : Entry → Entry
release_held e = elim e.references [
  | zero ↦ e
  | suc n ↦ if n == 0 then abandon (record e { references = n }) else record e { references = n }
]

abbrev pub set_released : ℕ → List Bool → List Bool
set_released i [] = []
set_released zero (h ∷ hs) = false ∷ hs
set_released (suc i) (h ∷ hs) = h ∷ set_released i hs

-- `release`, of a reference by its number: only once.
unfoldable pub release : ℕ → Entry → Entry
release i e =
    if get_or e.holders i false
    then release_held (record e { holders = set_released i e.holders })
    else e

-- `close`, for one entry: what is in the map is left to `finishClose`.
unfoldable pub close_entry : Entry → Entry
close_entry e =
    if e.in_map
    then record e { in_map = false; is_closed = true; cancelled = true; awaited = true }
    else e

-- `finishClose` gets to an entry, whose compilation has ended.
unfoldable pub finish_close : Entry → Entry
finish_close e =
    if e.awaited && not e.is_compiling then close_product (record e { awaited = false }) else e

-- `compiledRef.compiled`
unfoldable pub reference_compiled : ℕ → Entry → Bool
reference_compiled i e = get_or e.holders i false && not e.is_closed && e.compiled

unfoldable pub update : ℕ → (Entry → Entry) → List Entry → List Entry
update i f [] = []
update zero f (e ∷ es) = f e ∷ es
update (suc i) f (e ∷ es) = e ∷ update i f es

-- The entry under a SHA: `join` it, or add a new one.
unfoldable pub join_or_add : Text → List Entry → List Entry
join_or_add sha [] = new_entry sha ∷ []
join_or_add sha (e ∷ es) =
    let rest = join_or_add sha es in
    if e.in_map && text_eq e.sha sha then join_entry e ∷ es else e ∷ rest

-- `acquire` up to its wait.
unfoldable pub begin_acquire : Text → Cache → Cache
unfolding check_sha join_or_add
begin_acquire sha c =
    if check_sha sha && not c.closed then record c { entries = join_or_add sha c.entries } else c

-- The end of `acquire`, once the compilation has ended: a reference to an entry with an error, or
-- that was closed, is released at once.
abbrev pub settle : ℕ → Entry → Entry
settle i e =
    if e.is_compiling
    then e
    else if e.has_error || e.is_closed || not e.compiled
    then release i e
    else e
