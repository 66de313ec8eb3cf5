-- ===== src/App/Scanning.antt =====
-- What the scan of an assembly keeps (cool-next/core/app/lifecycle.go).
use cool_admin_go_next.Common.{
  ◌==◌, ltb, Bool, true, false, not, List, [], ◌∷◌, ◌++◌, Text, text_eq, Option, none, some,
  if◌then◌else◌, ◌&&◌, length, ◌≡◌, refl, sym, ap, ◌∙◌,
}
use cool_admin_go_next.App.Lifecycle.{Transport}
use cool_admin_go_next.App.Order.{append_assoc, append_nil}
use cool_admin_go_next.App.Assembly.{
  Hooks, Graph, Assembled, ScanError, count_differs, lifecycles_differ, not_prefix, order_differs,
  hooks_differ, transport_differs, Scan, is_there, same_bool, fail_prefix, fail_complete,
  validate_hooks, wants_transport, valid_name, next_transports, add_transport, keep_transport, keep,
  scan_each, finish_with, new_scan, check_counts, scan_assembly,
}

pub if_both {ℓ} :
    {A : Type 0} (P : A → Type ℓ) (b : Bool) {x y : A}
    → (b ≡ true → P x)
    → (b ≡ false → P y)
    → P (if b then x else y)
if_both P true hx hy = hx refl
if_both P false hx hy = hy refl

-- The transports of the parts of an assembly, in order.
abbrev pub transport_of : Option Transport → List Transport
transport_of none = []
transport_of (some t) = t ∷ []

abbrev pub transports_of : List Assembled → List Transport
transports_of [] = []
transports_of (a ∷ parts) = transport_of a.transport ++ transports_of parts

-- A part is the component at its place in the graph, with its hooks, and a transport exactly where
-- the graph has one.
abbrev pub part_fits : Text → Hooks → List Text → Assembled → Bool
part_fits name hooks expected a =
    text_eq a.component.name name
    && validate_hooks hooks a.component
    && same_bool (is_there a.transport) (wants_transport name expected)

abbrev pub after_transport : Option Transport → List Text → List Text
after_transport none expected = expected
after_transport (some _) expected = next_transports expected

-- The parts before the first that does not fit.
abbrev pub fitting_from : List Assembled → List Text → List Hooks → List Text → List Assembled
fitting_from [] names hooks expected = []
fitting_from (a ∷ parts) [] hooks expected = []
fitting_from (a ∷ parts) (name ∷ names) [] expected = []
fitting_from (a ∷ parts) (name ∷ names) (h ∷ hs) expected =
    let rest = fitting_from parts names hs (after_transport a.transport expected) in
    if part_fits name h expected a then a ∷ rest else []

abbrev pub fitting : Graph → List Assembled → List Assembled
fitting graph parts =
    if length graph.lifecycles == length graph.components
    then fitting_from parts graph.components graph.lifecycles graph.transports
    else []

pub add_transport_keeps :
    (complete : Bool) (t : Transport) (s : Scan)
    → ((add_transport complete t s).components ≡ s.components)
      × ((add_transport complete t s).expected ≡ s.expected)
add_transport_keeps complete t s =
    let P : Scan → Type 0 = λ r. (r.components ≡ s.components) × (r.expected ≡ s.expected) in
    if_both P (complete && not (is_there s.error))
      (λ _. if_both P (valid_name t.name s.transports) (λ _. (refl, refl)) (λ _. (refl, refl)))
      (λ _. (refl, refl))

pub keep_transport_keeps :
    (complete : Bool) (t : Option Transport) (s : Scan)
    → ((keep_transport complete t s).components ≡ s.components)
      × ((keep_transport complete t s).expected ≡ after_transport t s.expected)
keep_transport_keeps complete none s = (refl, refl)
keep_transport_keeps complete (some t) s =
    let kept = add_transport_keeps complete t s in (kept.0, ap next_transports kept.1)

fail_keeps :
    (complete : Bool) (e p : ScanError) (s : Scan)
    → (fail_prefix p (fail_complete complete e s)).components ≡ s.components
fail_keeps true e p s = refl
fail_keeps false e p s = refl

scan_each-fitting_from :
    (complete : Bool) (parts : List Assembled) (names : List Text) (hooks : List Hooks) (s : Scan)
    → (scan_each complete parts names hooks s).components
      ≡ s.components ++ fitting_from parts names hooks s.expected
unfolding scan_each
scan_each-fitting_from complete [] names hooks s = sym (append_nil s.components)
scan_each-fitting_from complete (a ∷ parts) [] hooks s = sym (append_nil s.components)
scan_each-fitting_from complete (a ∷ parts) (name ∷ names) [] s = sym (append_nil s.components)
scan_each-fitting_from complete (a ∷ parts) (name ∷ names) (h ∷ hs) s =
    go
      (let kept =
          keep_transport_keeps complete a.transport
            (record s { components = s.components ++ a ∷ [] }) in
        scan_each-fitting_from complete parts names hs (keep complete a s)
        ∙ ap (λ l. l ++ fitting_from parts names hs (keep complete a s).expected) kept.0
        ∙ append_assoc s.components (a ∷ [])
            (fitting_from parts names hs (keep complete a s).expected)
        ∙ ap (λ e. s.components ++ a ∷ fitting_from parts names hs e) kept.1)
      (text_eq a.component.name name) (validate_hooks h a.component)
      (same_bool (is_there a.transport) (wants_transport name s.expected))
  where
    later : List Assembled
    later = fitting_from parts names hs (after_transport a.transport s.expected)

    go :
        (scan_each complete parts names hs (keep complete a s)).components
          ≡ s.components ++ a ∷ later
        → (same hooked carried : Bool)
        → (if not same
            then fail_prefix not_prefix (fail_complete complete order_differs s)
            else if not hooked
            then fail_prefix hooks_differ (fail_complete complete hooks_differ s)
            else if not carried
            then fail_prefix transport_differs (fail_complete complete transport_differs s)
            else scan_each complete parts names hs (keep complete a s)).components
          ≡ s.components ++ (if same && hooked && carried then a ∷ later else [])
    go rest false hooked carried =
        fail_keeps complete order_differs not_prefix s ∙ sym (append_nil s.components)
    go rest true false carried =
        fail_keeps complete hooks_differ hooks_differ s ∙ sym (append_nil s.components)
    go rest true true false =
        fail_keeps complete transport_differs transport_differs s ∙ sym (append_nil s.components)
    go rest true true true = rest

pub finish_keeps :
    (complete : Bool) (expected : List Text) (s : Scan)
    → ((finish_with complete expected s).components ≡ s.components)
      × ((finish_with complete expected s).transports ≡ s.transports)
finish_keeps complete [] s = (refl, refl)
finish_keeps true (x ∷ xs) s = (refl, refl)
finish_keeps false (x ∷ xs) s = (refl, refl)

pub counted_keeps :
    (graph : Graph) (complete : Bool) (parts : List Assembled)
    → ((check_counts graph complete parts (new_scan graph)).components ≡ [])
      × ((check_counts graph complete parts (new_scan graph)).expected ≡ graph.transports)
counted_keeps graph complete parts =
    let P : Scan → Type 0 = λ r. (r.components ≡ []) × (r.expected ≡ graph.transports) in
    let counted : P (
        if length graph.components == length parts
        then new_scan graph
        else fail_complete complete count_differs (new_scan graph)) =
      if_both P (length graph.components == length parts) (λ _. (refl, refl))
        (λ _. if_both P complete (λ _. (refl, refl)) (λ _. (refl, refl))) in
    if_both P (ltb (length graph.components) (length parts)) (λ _. counted) (λ _. counted)

pub scan_assembly-fitting :
    (graph : Graph) (parts : List Assembled) (complete : Bool)
    → (scan_assembly graph (some parts) complete).components ≡ fitting graph parts
unfolding scan_assembly
scan_assembly-fitting graph parts complete =
    let s = check_counts graph complete parts (new_scan graph) in
    let (kept, expected) = counted_keeps graph complete parts in
    let scanned = scan_each complete parts graph.components graph.lifecycles s in
    go _ _
      ((finish_keeps complete scanned.expected scanned).0
        ∙ scan_each-fitting_from complete parts graph.components graph.lifecycles s
        ∙ ap (λ l. l ++ fitting_from parts graph.components graph.lifecycles s.expected) kept
        ∙ ap (fitting_from parts graph.components graph.lifecycles) expected)
      (fail_keeps complete lifecycles_differ lifecycles_differ s ∙ kept)
      (length graph.lifecycles == length graph.components)
  where
    go :
        (x y : Scan) {l : List Assembled}
        → x.components ≡ l
        → y.components ≡ []
        → (b : Bool) → (if b then x else y).components ≡ (if b then l else [])
    go x y p q true = p
    go x y p q false = q
