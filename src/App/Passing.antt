-- ===== src/App/Passing.antt =====
-- A scan without an error keeps the assembly (cool-next/core/app/lifecycle.go).
use cool_admin_go_next.Common.{
  ◌==◌, ltb, Bool, true, false, not, List, [], ◌∷◌, ◌++◌, Text, text_eq, Option, none, some,
  if◌then◌else◌, ◌&&◌, length, ◌≡◌, refl, sym, ap, ◌∙◌, arith,
}
use cool_admin_go_next.App.Lifecycle.{Transport}
use cool_admin_go_next.App.Order.{append_assoc, append_nil}
use cool_admin_go_next.App.Assembly.{
  Hooks, Graph, Assembled, ScanError, count_differs, lifecycles_differ, missing_transport,
  not_prefix, order_differs, hooks_differ, transport_differs, Scan, is_there, same_bool, or_else,
  fail_prefix, fail_complete, validate_hooks, wants_transport, valid_name, add_transport,
  keep_transport, keep, scan_each, finish_with, new_scan, check_counts, scan_assembly,
}
use cool_admin_go_next.App.Scanning.{
  if_both, transport_of, transports_of, add_transport_keeps, finish_keeps, counted_keeps,
}

-- A complete assembly that is scanned without an error is kept as it is.
abbrev pub Passed : Scan → List Assembled → Scan → Type 0
Passed s parts r =
    (s.error ≡ none)
    × (r.components ≡ s.components ++ parts)
    × (r.transports ≡ s.transports ++ transports_of parts)

-- An error stays.
never_clear : (o : Option ScanError) (e : ScanError) → or_else o e ≡ none → ⊥
never_clear none e h = cc
never_clear (some x) e h = cc

pub keep-Passed :
    (a : Assembled) (s : Scan) → (keep true a s).error ≡ none → Passed s (a ∷ []) (keep true a s)
keep-Passed a s = go a.transport
  where
    kept : Scan
    kept = record s { components = s.components ++ a ∷ [] }

    added :
        (t : Transport)
        → (add_transport true t kept).error ≡ none
        → (s.error ≡ none) × ((add_transport true t kept).transports ≡ s.transports ++ t ∷ [])
    added t =
        let P : Scan → Type 0 =
          λ r. r.error ≡ none → (s.error ≡ none) × (r.transports ≡ s.transports ++ t ∷ []) in
        if_both P (true && not (is_there s.error))
          (λ _. if_both P (valid_name t.name s.transports) (λ _ h. (h, refl)) (λ _ h. absurd (cc)))
          (λ there h. absurd (cc))

    go :
        (t : Option Transport)
        → (keep_transport true t kept).error ≡ none
        → (s.error ≡ none)
          × ((keep_transport true t kept).components ≡ s.components ++ a ∷ [])
          × ((keep_transport true t kept).transports ≡ s.transports ++ (transport_of t ++ []))
    go none h = (h, refl, sym (append_nil s.transports))
    go (some t) h =
        let (clean, more) = added t h in (clean, (add_transport_keeps true t kept).0, more)

abbrev PassedEach : Scan → List Assembled → List Text → List Hooks → Scan → Type 0
PassedEach s parts names hooks r =
    (s.error ≡ none)
    × (length names ≡ length parts
        → length hooks ≡ length names
        → (r.components ≡ s.components ++ parts)
          × (r.transports ≡ s.transports ++ transports_of parts))

scan_each-passed :
    (parts : List Assembled) (names : List Text) (hooks : List Hooks) (s : Scan)
    → (scan_each true parts names hooks s).error ≡ none
    → PassedEach s parts names hooks (scan_each true parts names hooks s)
unfolding scan_each
scan_each-passed [] names hooks s h =
    (h, λ n m. (sym (append_nil s.components), sym (append_nil s.transports)))
scan_each-passed (a ∷ parts) [] hooks s h = (h, λ n m. absurd (omega (arith, n)))
scan_each-passed (a ∷ parts) (name ∷ names) [] s h = (h, λ n m. absurd (omega (arith, m)))
scan_each-passed (a ∷ parts) (name ∷ names) (h ∷ hs) s clear =
    go
      (λ ended.
        let (kept, rest) = scan_each-passed parts names hs (keep true a s) ended in
        let (before, components', transports') = keep-Passed a s kept in
        (
          before,
          λ n m.
              let (components, transports) = rest (omega (arith, n)) (omega (arith, m)) in
              (
                components
                    ∙ ap (λ l. l ++ parts) components'
                    ∙ append_assoc s.components (a ∷ []) parts,
                transports
                    ∙ ap (λ l. l ++ transports_of parts) transports'
                    ∙ append_assoc s.transports (transport_of a.transport ++ [])
                        (transports_of parts)
                    ∙ ap (λ l. s.transports ++ (l ++ transports_of parts))
                        (append_nil (transport_of a.transport)),
              ),
        ))
      (text_eq a.component.name name) (validate_hooks h a.component)
      (same_bool (is_there a.transport) (wants_transport name s.expected)) clear
  where
    go :
        ((scan_each true parts names hs (keep true a s)).error ≡ none
          → PassedEach s
              (a ∷ parts)
              (name ∷ names)
              (h ∷ hs)
              (scan_each true parts names hs (keep true a s)))
        → (same hooked carried : Bool)
        → let r : Scan =
            if not same
            then fail_prefix not_prefix (fail_complete true order_differs s)
            else if not hooked
            then fail_prefix hooks_differ (fail_complete true hooks_differ s)
            else if not carried
            then fail_prefix transport_differs (fail_complete true transport_differs s)
            else scan_each true parts names hs (keep true a s) in
          r.error ≡ none → PassedEach s (a ∷ parts) (name ∷ names) (h ∷ hs) r
    go rest false hooked carried = λ ended. absurd (never_clear s.error order_differs ended)
    go rest true false carried = λ ended. absurd (never_clear s.error hooks_differ ended)
    go rest true true false = λ ended. absurd (never_clear s.error transport_differs ended)
    go rest true true true = rest

finish_clear :
    (expected : List Text) (s : Scan) → (finish_with true expected s).error ≡ none → s.error ≡ none
finish_clear [] s h = h
finish_clear (x ∷ xs) s h = absurd (never_clear s.error missing_transport h)

counted_passed :
    (graph : Graph) (parts : List Assembled)
    → (check_counts graph true parts (new_scan graph)).error ≡ none
    → (length graph.components ≡ length parts)
      × ((check_counts graph true parts (new_scan graph)).transports ≡ [])
counted_passed graph parts =
    let P : Scan → Type 0 =
      λ r. r.error ≡ none → (length graph.components ≡ length parts) × (r.transports ≡ []) in
    let counted : P (
        if length graph.components == length parts
        then new_scan graph
        else fail_complete true count_differs (new_scan graph)) =
      if_both P (length graph.components == length parts) (λ e _. (ground (arith, e), refl))
        (λ _ h. absurd (cc)) in
    if_both P (ltb (length graph.components) (length parts)) (λ _. counted) (λ _. counted)

pub scan_assembly-passed :
    (graph : Graph) (parts : List Assembled)
    → (scan_assembly graph (some parts) true).error ≡ none
    → ((scan_assembly graph (some parts) true).components ≡ parts)
      × ((scan_assembly graph (some parts) true).transports ≡ transports_of parts)
unfolding scan_assembly
scan_assembly-passed graph parts =
    let s = check_counts graph true parts (new_scan graph) in
    let scanned = scan_each true parts graph.components graph.lifecycles s in
    let P : Scan → Type 0 =
      λ r. r.error ≡ none → (r.components ≡ parts) × (r.transports ≡ transports_of parts) in
    if_both P (length graph.lifecycles == length graph.components)
      (λ same h.
        let clear = finish_clear scanned.expected scanned h in
        let (before, kept) = scan_each-passed parts graph.components graph.lifecycles s clear in
        let (counts, no_transports) = counted_passed graph parts before in
        let (components, transports) = kept counts (ground (arith, same)) in
        (
          (finish_keeps true scanned.expected scanned).0
              ∙ components
              ∙ ap (λ l. l ++ parts) (counted_keeps graph true parts).0,
          (finish_keeps true scanned.expected scanned).1
              ∙ transports
              ∙ ap (λ l. l ++ transports_of parts) no_transports,
        ))
      (λ _ h. absurd (never_clear s.error lifecycles_differ h))
