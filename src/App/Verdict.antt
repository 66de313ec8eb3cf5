-- ===== src/App/Verdict.antt =====
-- Whether the scan of an assembly finds an error (cool-next/core/app/lifecycle.go).
use cool_admin_go_next.Common.{
  ◌==◌, ltb, Bool, true, false, List, [], ◌∷◌, ◌++◌, Text, some, if◌then◌else◌, ◌&&◌, length, ◌≡◌,
  refl, sym, ◌∙◌, Bool-cases, inl, inr, arith,
}
use cool_admin_go_next.App.Lifecycle.{Transport}
use cool_admin_go_next.App.Assembly.{
  Hooks, Graph, Assembled, count_differs, lifecycles_differ, Scan, fail_prefix, fail_complete,
  scan_each, finish_scan, new_scan, check_counts, scan_assembly,
}
use cool_admin_go_next.App.Scanning.{if_both, counted_keeps, after_transport, transport_of}
use cool_admin_go_next.App.Fitting.{
  fits_from, fits_graph, is_clear, or_else_unclear, unclear_stays, scan_clear,
}

fits_lengths :
    (before : List Transport) (parts : List Assembled) (names : List Text) (hooks : List Hooks)
    (expected : List Text)
    → fits_from before parts names hooks expected ≡ true
    → length names ≡ length parts
fits_lengths before [] [] hooks expected h = refl
fits_lengths before [] (name ∷ names) hooks expected h = absurd (cc)
fits_lengths before (a ∷ parts) [] hooks expected h = absurd (cc)
fits_lengths before (a ∷ parts) (name ∷ names) [] expected h = absurd (cc)
fits_lengths before (a ∷ parts) (name ∷ names) (k ∷ ks) expected h =
    let rest =
      fits_lengths (before ++ transport_of a.transport) parts names ks
        (after_transport a.transport expected) (ground arith) in
    omega (arith, rest)

counted_clear :
    (graph : Graph) (parts : List Assembled)
    → (length graph.components == length parts) ≡ true
    → ((check_counts graph true parts (new_scan graph)).transports ≡ [])
      × (is_clear (check_counts graph true parts (new_scan graph)).error ≡ true)
counted_clear graph parts same =
    let P : Scan → Type 0 = λ r. (r.transports ≡ []) × (is_clear r.error ≡ true) in
    let counted : P (
        if length graph.components == length parts
        then new_scan graph
        else fail_complete true count_differs (new_scan graph)) =
      if_both P (length graph.components == length parts) (λ _. (refl, refl)) (λ e. absurd (cc)) in
    if_both P (ltb (length graph.components) (length parts)) (λ _. counted) (λ _. counted)

counted_unclear :
    (graph : Graph) (parts : List Assembled)
    → (length graph.components == length parts) ≡ false
    → is_clear (check_counts graph true parts (new_scan graph)).error ≡ false
counted_unclear graph parts differ =
    let P : Scan → Type 0 = λ r. is_clear r.error ≡ false in
    let counted : P (
        if length graph.components == length parts
        then new_scan graph
        else fail_complete true count_differs (new_scan graph)) =
      if_both P (length graph.components == length parts) (λ e. absurd (cc)) (λ _. refl) in
    if_both P (ltb (length graph.components) (length parts)) (λ _. counted) (λ _. counted)

-- The scan of a complete assembly finds no error exactly if the assembly is one of the graph.
pub scan_assembly_clear :
    (graph : Graph) (parts : List Assembled)
    → is_clear (scan_assembly graph (some parts) true).error ≡ fits_graph graph parts
unfolding scan_assembly
scan_assembly_clear graph parts = go (length graph.lifecycles == length graph.components) refl
  where
    s : Scan
    s = check_counts graph true parts (new_scan graph)

    scanned : Scan
    scanned = scan_each true parts graph.components graph.lifecycles s

    fit : Bool
    fit = fits_from [] parts graph.components graph.lifecycles graph.transports

    each :
        (length graph.lifecycles == length graph.components) ≡ true
        → is_clear (finish_scan true scanned).error ≡ fit
    each same = elim (Bool-cases (length graph.components == length parts)) [
      | inl counts ↦
          let (no_transports, clear) = counted_clear graph parts counts in
          let expected = (counted_keeps graph true parts).1 in
          let found =
            scan_clear parts graph.components graph.lifecycles s (ground (arith, counts))
              (ground (arith, same)) in
          rw (no_transports, expected, clear) at found
      | inr differ ↦
          unclear_stays parts graph.components graph.lifecycles s
            (counted_unclear graph parts differ)
          ∙ sym (never differ)
    ]
      where
        never : (length graph.components == length parts) ≡ false → fit ≡ false
        never differ = elim (Bool-cases fit) [
          | inl fits_all ↦ absurd (
              ground (
                arith,
                differ,
                fits_lengths [] parts graph.components graph.lifecycles graph.transports fits_all,
              ))
          | inr other ↦ other
        ]

    go :
        (b : Bool)
        → (length graph.lifecycles == length graph.components) ≡ b
        → is_clear
            (if b
              then finish_scan true scanned
              else fail_prefix lifecycles_differ (fail_complete true lifecycles_differ s)).error
          ≡ (b && fit)
    go true e = each e
    go false e = or_else_unclear s.error lifecycles_differ
