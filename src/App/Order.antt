-- ===== src/App/Order.antt =====
-- What a start leaves to be stopped.
use cool_admin_go_next.Common.{
  ◌≡◌, refl, sym, ◌∙◌, ap, subst, Bool, true, false, List, [], ◌∷◌, ◌++◌, Text, Option, none, some,
  Result, ok, err, if◌then◌else◌, filter, all, ◌&&◌, arith,
}
use cool_admin_go_next.App.Lifecycle.{
  Component, Transport, starting_transport, preparing, with_channel, initializing, Hook,
  initializes, starts_up, stops_down, prepares_transport, starts_transport, stops_transport,
  StartError, Entry, Application, new_application, called, add_stopper, Step, and_then, call_hook,
  init_components, prepare_transports, start_components, supervised, terminations, start_transports,
  start_assembly,
}

abbrev pub is_stop : Hook → Bool
is_stop (stops_down _) = true
is_stop (stops_transport _) = true
is_stop _ = false

abbrev pub stops_of : Application → List Hook
stops_of app = filter is_stop app.log

abbrev pub take_while {ℓ} : {A : Type ℓ} → (A → Bool) → List A → List A
take_while p [] = []
take_while p (x ∷ xs) = let rest = take_while p xs in if p x then x ∷ rest else []

abbrev pub works_if_there : Option Bool → Bool
works_if_there none = true
works_if_there (some b) = b

abbrev pub initializes_well : Component → Bool
initializes_well c = works_if_there c.initializer

abbrev pub entry_of : Component → Option Bool → List Entry
entry_of c none = []
entry_of c (some works) = record { call = stops_down c.name; works = works } ∷ []

-- The stoppers of the components, in order.
abbrev pub entries : List Component → List Entry
entries [] = []
entries (c ∷ cs) = entry_of c c.stopper ++ entries cs

-- The components that were initialized: those before the first whose initializer fails.
abbrev pub initialized : List Component → List Component
initialized cs = take_while initializes_well cs

-- The transports that were prepared: none, unless every component was initialized.
abbrev pub prepared : List Component → List Transport → List Transport
prepared cs ts = if all initializes_well cs then take_while (λ t. t.prepares) ts else []

-- The application has these stoppers and transports, and nothing was stopped.
pub record Holds (stoppers : List Entry) (transports : List Transport) (app : Application)
    : Type 0 where
  pub stoppers_are : app.stoppers ≡ stoppers
  pub transports_are : app.transports ≡ transports
  pub none_stopped : stops_of app ≡ []
  pub running : app.stopped ≡ false

filter-append :
    (xs ys : List Hook) → filter is_stop (xs ++ ys) ≡ filter is_stop xs ++ filter is_stop ys
filter-append [] ys = refl
filter-append (x ∷ xs) ys =
    elim (is_stop x)
      as (λ b.
        (elim b as (λ _. List Hook) [
          | true ↦ x ∷ filter is_stop (xs ++ ys)
          | false ↦ filter is_stop (xs ++ ys)
        ])
        ≡ (elim b as (λ _. List Hook) [ true ↦ x ∷ filter is_stop xs | false ↦ filter is_stop xs ])
          ++ filter is_stop ys) [
            | true ↦ ap (λ l. x ∷ l) (filter-append xs ys)
            | false ↦ filter-append xs ys
          ]

pub append_nil {ℓ} : {A : Type ℓ} (xs : List A) → xs ++ [] ≡ xs
append_nil [] = refl
append_nil (x ∷ xs) = ap (λ l. x ∷ l) (append_nil xs)

pub append_assoc {ℓ} : {A : Type ℓ} (xs ys zs : List A) → (xs ++ ys) ++ zs ≡ xs ++ (ys ++ zs)
append_assoc [] ys zs = refl
append_assoc (x ∷ xs) ys zs = ap (λ l. x ∷ l) (append_assoc xs ys zs)

filter_other : (hook : Hook) → is_stop hook ≡ false → filter is_stop (hook ∷ []) ≡ []
filter_other hook h = ground arith

called-Holds :
    {S : List Entry} {T : List Transport} (hook : Hook) (app : Application)
    → is_stop hook ≡ false
    → Holds S T app
    → Holds S T (called hook app)
called-Holds hook app other h = record {
  stoppers_are = h.stoppers_are;
  transports_are = h.transports_are;
  none_stopped = filter-append app.log (hook ∷ []) ∙ rw h.none_stopped (filter_other hook other);
  running = h.running;
}

call_hook-Holds :
    {S : List Entry} {T : List Transport} (there : Option Bool) (hook : Hook) (e : StartError)
    (app : Application)
    → is_stop hook ≡ false
    → Holds S T app
    → Holds S T (call_hook there hook e app).1
call_hook-Holds none hook e app other h = h
call_hook-Holds (some true) hook e app other h = called-Holds hook app other h
call_hook-Holds (some false) hook e app other h = called-Holds hook app other h

-- A step that keeps what is held, and what follows it.
and_then-Holds :
    {S : List Entry} {T : List Transport} (r : Step) (f : Application → Step)
    → Holds S T r.1
    → (Holds S T r.1 → Holds S T (f r.1).1)
    → Holds S T (and_then r f).1
and_then-Holds (err e, a) f h g = h
and_then-Holds (ok _, a) f h g = g h

start_components-Holds :
    {S : List Entry} {T : List Transport} (cs : List Component) (app : Application)
    → Holds S T app
    → Holds S T (start_components cs app).1
unfolding start_components
start_components-Holds [] app h = h
start_components-Holds (c ∷ cs) app h =
    and_then-Holds _ (start_components cs)
      (call_hook-Holds c.starter (starts_up c.name) _ app refl h)
      (λ k. start_components-Holds cs _ k)

supervised-Holds :
    {S : List Entry} {T : List Transport} (name : Text) (there : Option Bool) (app : Application)
    → Holds S T app
    → Holds S T (supervised name there app).1
supervised-Holds name none app h = h
supervised-Holds name (some true) app h = h
supervised-Holds name (some false) app h = h

terminations-Holds :
    {S : List Entry} {T : List Transport} (cs : List Component) (app : Application)
    → Holds S T app
    → Holds S T (terminations cs app).1
unfolding terminations
terminations-Holds [] app h = h
terminations-Holds (c ∷ cs) app h =
    and_then-Holds _ (terminations cs) (supervised-Holds c.name c.supervisor app h)
      (λ k. terminations-Holds cs _ k)

with_channel-Holds :
    {S : List Entry} {T : List Transport} (there : Bool) (name : Text) (f : Application → Step)
    (app : Application)
    → (Holds S T app → Holds S T (f app).1)
    → Holds S T app
    → Holds S T (with_channel there name f app).1
with_channel-Holds true name f app g h = g h
with_channel-Holds false name f app g h = h

start_transports-Holds :
    {S : List Entry} {T : List Transport} (ts : List Transport) (app : Application)
    → Holds S T app
    → Holds S T (start_transports ts app).1
unfolding start_transports
start_transports-Holds [] app h = h
start_transports-Holds (t ∷ ts) app h =
    and_then-Holds
      (call_hook (some t.starts) (starts_transport t.name) (starting_transport t.name) app)
      (with_channel t.has_channel t.name (start_transports ts))
      (call_hook-Holds (some t.starts) (starts_transport t.name) _ app refl h)
      (λ k.
        with_channel-Holds t.has_channel t.name (start_transports ts) _
          (λ k. start_transports-Holds ts _ k) k)

abbrev is_ok : Result StartError (Unit {0}) → Bool
is_ok (ok _) = true
is_ok (err _) = false

add_stopper-Holds :
    {S : List Entry} {T : List Transport} (c : Component) (there : Option Bool) (app : Application)
    → Holds S T app
    → Holds (S ++ entry_of c there) T (add_stopper c there app)
add_stopper-Holds {S} {T} c none app h = subst (λ l. Holds l T app) (sym (append_nil S)) h
add_stopper-Holds {S} {T} c (some works) app h = record {
  stoppers_are = ap (λ l. l ++ entry_of c (some works)) h.stoppers_are;
  transports_are = h.transports_are;
  none_stopped = h.none_stopped;
  running = h.running;
}

-- What the first loop comes to: the stoppers that it has registered, and whether all went well.
abbrev Inits : List Entry → List Transport → List Component → Bool → Step → Type 0
Inits S T cs well r = Holds (S ++ entries cs) T r.1 × (is_ok r.0 ≡ well)

init_one :
    {S : List Entry} {T : List Transport} (c : Component) (there : Option Bool) (app : Application)
    (rest : List Component) (well : Bool) (f : Application → Step)
    → Holds S T app
    → ((a : Application)
        → Holds (S ++ entry_of c c.stopper) T (add_stopper c c.stopper a)
        → Inits (S ++ entry_of c c.stopper) T rest well (f a))
    → Inits S T
        (if works_if_there there then c ∷ rest else [])
        (works_if_there there && well)
        (and_then (call_hook there (initializes c.name) (initializing c.name) app) f)
init_one {S} {T} c none app rest well f h next =
    let (held, went) = next app (add_stopper-Holds c c.stopper app h) in
    (
      subst (λ l. Holds l T (f app).1) (append_assoc S (entry_of c c.stopper) (entries rest)) held,
      went,
    )
init_one {S} {T} c (some true) app rest well f h next =
    let a = called (initializes c.name) app in
    let (held, went) =
      next a (add_stopper-Holds c c.stopper a (called-Holds (initializes c.name) app refl h)) in
    (
      subst (λ l. Holds l T (f a).1) (append_assoc S (entry_of c c.stopper) (entries rest)) held,
      went,
    )
init_one {S} {T} c (some false) app rest well f h next =
    let a = called (initializes c.name) app in
    (
      subst (λ l. Holds l T a) (sym (append_nil S)) (called-Holds (initializes c.name) app refl h),
      refl,
    )

init_components-Holds :
    (cs : List Component) {S : List Entry} {T : List Transport} (app : Application)
    → Holds S T app
    → Inits S T (initialized cs) (all initializes_well cs) (init_components cs app)
unfolding init_components
init_components-Holds [] {S} {T} app h = (subst (λ l. Holds l T app) (sym (append_nil S)) h, refl)
init_components-Holds (c ∷ cs) app h =
    init_one c c.initializer app (initialized cs) (all initializes_well cs)
      (λ a. init_components cs (add_stopper c c.stopper a)) h
      (λ a k. init_components-Holds cs (add_stopper c c.stopper a) k)

prepare_transports-Holds :
    (ts : List Transport) {S : List Entry} {T : List Transport} (app : Application)
    → Holds S T app
    → Holds S (T ++ take_while (λ t. t.prepares) ts) (prepare_transports ts app).1
unfolding prepare_transports
prepare_transports-Holds [] {S} {T} app h = subst (λ l. Holds S l app) (sym (append_nil T)) h
prepare_transports-Holds (t ∷ ts) {S} {T} app h =
    go t.prepares (λ a k. prepare_transports-Holds ts a k)
  where
    hook : Hook
    hook = prepares_transport t.name

    more : Application → Application
    more a = record a { transports = a.transports ++ t ∷ [] }

    go :
        (b : Bool)
        → ((a : Application)
            → Holds S (T ++ t ∷ []) a
            → Holds S
                ((T ++ t ∷ []) ++ take_while (λ t. t.prepares) ts)
                (prepare_transports ts a).1)
        → Holds S
            (T ++ (if b then t ∷ take_while (λ t. t.prepares) ts else []))
            (and_then
              (call_hook (some b) hook (preparing t.name) app)
              (λ a. prepare_transports ts (more a))).1
    go false next =
        subst (λ l. Holds S l (called hook app)) (sym (append_nil T)) (called-Holds hook app refl h)
    go true next =
        let a = called hook app in
        let k = called-Holds hook app refl h in
        subst (λ l. Holds S l (prepare_transports ts (more a)).1)
          (append_assoc T (t ∷ []) (take_while (λ t. t.prepares) ts))
          (next (more a) (record {
            stoppers_are = k.stoppers_are;
            transports_are = ap (λ l. l ++ t ∷ []) k.transports_are;
            none_stopped = k.none_stopped;
            running = k.running;
          }))

-- The rest of the start, once the components are initialized.
abbrev rest_of_start : List Component → List Transport → Application → Step
rest_of_start cs ts a = and_then (prepare_transports ts a) (λ b.
    and_then (start_components cs b) (λ c.
      and_then (terminations cs c)
        (λ d. and_then (start_transports ts d) (λ e. (ok tt, record e { ready = true })))))

rest_of_start-Holds :
    {S : List Entry} {T : List Transport} (cs : List Component) (ts : List Transport)
    (a : Application)
    → Holds S T a
    → Holds S (T ++ take_while (λ t. t.prepares) ts) (rest_of_start cs ts a).1
rest_of_start-Holds cs ts a h =
    and_then-Holds (prepare_transports ts a) _ (prepare_transports-Holds ts a h) (λ k.
      and_then-Holds (start_components cs (prepare_transports ts a).1) _
        (start_components-Holds cs _ k)
        (λ k.
          and_then-Holds (terminations cs (start_components cs (prepare_transports ts a).1).1) _
            (terminations-Holds cs _ k)
            (λ k.
              and_then-Holds
                (start_transports ts
                  (terminations cs (start_components cs (prepare_transports ts a).1).1).1)
                _ (start_transports-Holds ts _ k)
                (λ k. record {
                  stoppers_are = k.stoppers_are;
                  transports_are = k.transports_are;
                  none_stopped = k.none_stopped;
                  running = k.running;
                }))))

pub start_assembly-Holds :
    (cs : List Component) (ts : List Transport)
    → Holds (entries (initialized cs)) (prepared cs ts) (start_assembly cs ts new_application).1
unfolding start_assembly
start_assembly-Holds cs ts = go (init_components cs new_application) (
    init_components-Holds cs new_application
      (record { stoppers_are = refl; transports_are = refl; none_stopped = refl; running = refl }))
  where
    go :
        (r : Step)
        → Inits [] [] (initialized cs) (all initializes_well cs) r
        → Holds (entries (initialized cs)) (prepared cs ts) (and_then r (rest_of_start cs ts)).1
    go (err e, a) (held, went) =
        let none_prepared : prepared cs ts ≡ [] = rw (sym went) in
        subst (λ l. Holds (entries (initialized cs)) l a) (sym none_prepared) held
    go (ok _, a) (held, went) =
        let all_prepared : prepared cs ts ≡ take_while (λ t. t.prepares) ts = rw (sym went) in
        subst (λ l. Holds (entries (initialized cs)) l (rest_of_start cs ts a).1) (sym all_prepared)
          (rest_of_start-Holds cs ts a held)
