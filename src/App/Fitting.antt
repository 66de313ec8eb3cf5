-- ===== src/App/Fitting.antt =====
-- When the scan of an assembly finds no error (cool-next/core/app/lifecycle.go).
use cool_admin_go_next.Common.{
  ◌==◌, Bool, true, false, not, List, [], ◌∷◌, ◌++◌, Text, text_eq, Option, none, some,
  if◌then◌else◌, ◌&&◌, length, ◌≡◌, refl, sym, ap, ◌∙◌, Bool-cases, inl, inr, arith,
}
use cool_admin_go_next.App.Lifecycle.{Transport}
use cool_admin_go_next.App.Order.{append_nil}
use cool_admin_go_next.App.Assembly.{
  Hooks, Graph, Assembled, ScanError, missing_transport, not_prefix, order_differs, hooks_differ,
  transport_differs, Scan, is_there, same_bool, or_else, fail_prefix, fail_complete, validate_hooks,
  wants_transport, valid_name, add_transport, keep_transport, keep, scan_each, finish_with,
  finish_scan,
}
use cool_admin_go_next.App.Passing.{keep-Passed}
use cool_admin_go_next.App.Scanning.{
  if_both, part_fits, after_transport, transport_of, keep_transport_keeps,
}

-- The name of a transport is no other's before it.
abbrev names_itself : List Transport → Option Transport → Bool
names_itself before none = true
names_itself before (some t) = valid_name t.name before

-- Every part fits, the transports name themselves, and nothing is left over.
abbrev pub fits_from : List Transport → List Assembled → List Text → List Hooks → List Text → Bool
fits_from before [] [] hooks [] = true
fits_from before [] [] hooks (_ ∷ _) = false
fits_from before [] (_ ∷ _) hooks expected = false
fits_from before (a ∷ parts) [] hooks expected = false
fits_from before (a ∷ parts) (name ∷ names) [] expected = false
fits_from before (a ∷ parts) (name ∷ names) (h ∷ hs) expected =
    part_fits name h expected a
    && names_itself before a.transport
    && fits_from (before ++ transport_of a.transport) parts names hs
        (after_transport a.transport expected)

-- The assembly is one of the graph.
abbrev pub fits_graph : Graph → List Assembled → Bool
fits_graph graph parts =
    length graph.lifecycles == length graph.components
    && fits_from [] parts graph.components graph.lifecycles graph.transports

abbrev pub is_clear : Option ScanError → Bool
is_clear none = true
is_clear (some _) = false

pub or_else_unclear : (o : Option ScanError) (e : ScanError) → is_clear (or_else o e) ≡ false
or_else_unclear none e = refl
or_else_unclear (some x) e = refl

finish_unclear :
    (expected : List Text) (s : Scan)
    → is_clear s.error ≡ false
    → is_clear (finish_with true expected s).error ≡ false
finish_unclear [] s h = h
finish_unclear (x ∷ xs) s h = or_else_unclear s.error missing_transport

fail_unclear :
    (e p : ScanError) (s : Scan)
    → is_clear (finish_scan true (fail_prefix p (fail_complete true e s))).error ≡ false
fail_unclear e p s =
    finish_unclear s.expected (fail_prefix p (fail_complete true e s)) (or_else_unclear s.error e)

there_clear : (o : Option ScanError) → is_there o ≡ not (is_clear o)
there_clear none = refl
there_clear (some e) = refl

pub clear_none : (o : Option ScanError) → is_clear o ≡ true → o ≡ none
clear_none none h = refl
clear_none (some e) h = absurd (cc)

add_clear :
    (t : Transport) (s : Scan)
    → is_clear (add_transport true t s).error ≡ (is_clear s.error && valid_name t.name s.transports)
add_clear t s =
    let P : Scan → Type 0 =
      λ r. is_clear r.error ≡ (is_clear s.error && valid_name t.name s.transports) in
    let there = there_clear s.error in
    if_both P (true && not (is_there s.error))
      (λ e.
        if_both P (valid_name t.name s.transports) (λ v. rw v (ground arith))
          (λ v. rw v (ground arith)))
      (λ e. ground (arith, there))

keep_clear :
    (a : Assembled) (s : Scan)
    → is_clear (keep true a s).error ≡ (is_clear s.error && names_itself s.transports a.transport)
keep_clear a s = go a.transport
  where
    kept : Scan
    kept = record s { components = s.components ++ a ∷ [] }

    go :
        (t : Option Transport)
        → is_clear (keep_transport true t kept).error
          ≡ (is_clear s.error && names_itself s.transports t)
    go none = ground arith
    go (some t) = add_clear t kept

keep_transports :
    (a : Assembled) (s : Scan)
    → is_clear (keep true a s).error ≡ true
    → (keep true a s).transports ≡ s.transports ++ transport_of a.transport
keep_transports a s h =
    (keep-Passed a s (clear_none (keep true a s).error h)).2
    ∙ ap (λ l. s.transports ++ l) (append_nil (transport_of a.transport))

pub unclear_stays :
    (parts : List Assembled) (names : List Text) (hooks : List Hooks) (s : Scan)
    → is_clear s.error ≡ false
    → is_clear (finish_scan true (scan_each true parts names hooks s)).error ≡ false
unfolding scan_each
unclear_stays [] names hooks s h = finish_unclear s.expected s h
unclear_stays (a ∷ parts) [] hooks s h = finish_unclear s.expected s h
unclear_stays (a ∷ parts) (name ∷ names) [] s h = finish_unclear s.expected s h
unclear_stays (a ∷ parts) (name ∷ names) (k ∷ ks) s h =
    go (unclear_stays parts names ks (keep true a s) (ground (arith, keep_clear a s, h)))
      (text_eq a.component.name name) (validate_hooks k a.component)
      (same_bool (is_there a.transport) (wants_transport name s.expected))
  where
    go :
        is_clear (finish_scan true (scan_each true parts names ks (keep true a s))).error ≡ false
        → (same hooked carried : Bool)
        → is_clear
            (finish_scan true (
              if not same
              then fail_prefix not_prefix (fail_complete true order_differs s)
              else if not hooked
              then fail_prefix hooks_differ (fail_complete true hooks_differ s)
              else if not carried
              then fail_prefix transport_differs (fail_complete true transport_differs s)
              else scan_each true parts names ks (keep true a s))).error
          ≡ false
    go rest false hooked carried = fail_unclear order_differs not_prefix s
    go rest true false carried = fail_unclear hooks_differ hooks_differ s
    go rest true true false = fail_unclear transport_differs transport_differs s
    go rest true true true = rest

pub scan_clear :
    (parts : List Assembled) (names : List Text) (hooks : List Hooks) (s : Scan)
    → length names ≡ length parts
    → length hooks ≡ length names
    → is_clear (finish_scan true (scan_each true parts names hooks s)).error
      ≡ (is_clear s.error && fits_from s.transports parts names hooks s.expected)
unfolding scan_each
scan_clear [] (name ∷ names) hooks s n m = absurd (omega (arith, n))
scan_clear (a ∷ parts) [] hooks s n m = absurd (omega (arith, n))
scan_clear (a ∷ parts) (name ∷ names) [] s n m = absurd (omega (arith, m))
scan_clear [] [] hooks s n m = go s.expected
  where
    go :
        (expected : List Text)
        → is_clear (finish_with true expected s).error
          ≡ (is_clear s.error && fits_from s.transports [] [] hooks expected)
    go [] = ground arith
    go (x ∷ xs) = or_else_unclear s.error missing_transport ∙ ground arith
scan_clear (a ∷ parts) (name ∷ names) (h ∷ hs) s n m =
    go
      (elim (Bool-cases (is_clear (keep true a s).error)) [
        | inl clear ↦
            let ih =
              scan_clear parts names hs (keep true a s) (omega (arith, n)) (omega (arith, m)) in
            let expected =
              (keep_transport_keeps true a.transport
                (record s { components = s.components ++ a ∷ [] })).1 in
            rw (keep_transports a s clear, expected) at ih ∙ ap (λ b. b && later) (keep_clear a s)
        | inr unclear ↦
            unclear_stays parts names hs (keep true a s) unclear
            ∙ sym (ap (λ b. b && later) (sym (keep_clear a s) ∙ unclear))
      ])
      (text_eq a.component.name name) (validate_hooks h a.component)
      (same_bool (is_there a.transport) (wants_transport name s.expected))
  where
    later : Bool
    later =
        fits_from (s.transports ++ transport_of a.transport) parts names hs
          (after_transport a.transport s.expected)

    named : Bool
    named = names_itself s.transports a.transport

    go :
        is_clear (finish_scan true (scan_each true parts names hs (keep true a s))).error
          ≡ ((is_clear s.error && named) && later)
        → (same hooked carried : Bool)
        → is_clear
            (finish_scan true (
              if not same
              then fail_prefix not_prefix (fail_complete true order_differs s)
              else if not hooked
              then fail_prefix hooks_differ (fail_complete true hooks_differ s)
              else if not carried
              then fail_prefix transport_differs (fail_complete true transport_differs s)
              else scan_each true parts names hs (keep true a s))).error
          ≡ (is_clear s.error && (((same && hooked && carried) && named) && later))
    go rest false hooked carried = fail_unclear order_differs not_prefix s ∙ ground arith
    go rest true false carried = fail_unclear hooks_differ hooks_differ s ∙ ground arith
    go rest true true false = fail_unclear transport_differs transport_differs s ∙ ground arith
    go rest true true true = rest ∙ ground arith
