-- ===== src/Risk/Keeping.antt =====
-- What the operations of the memory backend keep, in the parts that they are made of.
use cool_admin_go_next.Common.{
  ℕ, ◌≤◌, ◌<◌, ◌≡◌, refl, sym, ◌∙◌, subst, Bool, true, false, Text, Option, none, some, lookup, put,
  length, leb, ltb, if◌then◌else◌, arith, ◌⊎◌, inl, inr, length-put_le, lookup-put_same, ltb→lt,
  leb_false→lt,
}
use cool_admin_go_next.Risk.Memory.{
  Limits, RiskResult, allowed, limited, Window, Client, Backend, captchas_of, increase_window,
  clean_captchas, clean_all, clean_client, clean_clients,
}
use cool_admin_go_next.Risk.Operations.{
  new_client, add_client, admit_client, client_state, with_room, with_captcha, found_client,
  count_captcha, allow_captcha,
}
use cool_admin_go_next.Risk.Shrinking.{
  Shrinks, Shrinks-refl, Shrinks-trans, clean_captchas-Shrinks, clean_all-Shrinks,
  rewrite_client-Shrinks, clean_client-Shrinks, clean_clients-Shrinks,
}

module _ (limits : Limits) where
  pub record IsBounded (b : Backend) : Type 0 where
    pub clients : length b.clients ≤ limits.client_capacity
    pub accounts : length b.accounts ≤ limits.account_capacity
    pub captchas : length b.captchas ≤ limits.captcha_capacity
    pub outstanding : (client : Text) → length (captchas_of client b) ≤ limits.outstanding_per_ip

  pub Shrinks-IsBounded : {a b : Backend} → Shrinks a b → IsBounded a → IsBounded b
  Shrinks-IsBounded {a} {b} s h = record {
    clients = omega (arith, s.clients, h.clients);
    accounts = subst (λ m. length m ≤ limits.account_capacity) (sym s.accounts) h.accounts;
    captchas = omega (arith, s.captchas, h.captchas);
    outstanding = λ client. omega (arith, s.outstanding client, h.outstanding client);
  }

  -- What an operation does that stores no captcha and changes no account.
  pub record Keeps (a b : Backend) : Type 0 where
    pub bounded : IsBounded a → IsBounded b
    pub gone : (id : Text) → lookup id a.captchas ≡ none → lookup id b.captchas ≡ none
    pub accounts : b.accounts ≡ a.accounts

  pub Shrinks-Keeps : {a b : Backend} → Shrinks a b → Keeps a b
  Shrinks-Keeps s = record { bounded = Shrinks-IsBounded s; gone = s.gone; accounts = s.accounts }

  pub Keeps-trans : {a b c : Backend} → Keeps a b → Keeps b c → Keeps a c
  Keeps-trans s t = record {
    bounded = λ h. t.bounded (s.bounded h);
    gone = λ id h. t.gone id (s.gone id h);
    accounts = t.accounts ∙ s.accounts;
  }

  -- The client that was found or admitted is in the map.
  pub record Admits (client : Text) (a : Backend) (r : Option Client × Backend) : Type 0 where
    pub keeps : Keeps a r.1
    pub known : (state : Client) → r.0 ≡ some state → lookup client r.1.clients ≡ some state

  add_client-Admits :
      (client : Text) (a b : Backend)
      → Shrinks a b
      → length b.clients < limits.client_capacity
      → Admits client a (add_client limits client b)
  add_client-Admits client a b s room = record {
    keeps = Keeps-trans (Shrinks-Keeps s) (record {
      bounded = λ h. record {
        clients = omega (arith, length-put_le client new_client b.clients);
        accounts = h.accounts;
        captchas = h.captchas;
        outstanding = h.outstanding;
      };
      gone = λ id g. g;
      accounts = refl;
    });
    known = λ state e. lookup-put_same client new_client b.clients ∙ e;
  }

  admit_client-Admits :
      (client : Text) (now : ℕ) (b : Backend) → Admits client b (admit_client limits client now b)
  unfolding admit_client
  admit_client-Admits client now b =
      go (ltb (length b.clients) limits.client_capacity)
        (ltb (length (clean_clients now b).clients) limits.client_capacity) refl refl
    where
      cleaned : Backend
      cleaned = clean_clients now b

      go :
          (x y : Bool)
          → ltb (length b.clients) limits.client_capacity ≡ x
          → ltb (length cleaned.clients) limits.client_capacity ≡ y
          → Admits client b (
              if x
              then add_client limits client b
              else if y
              then add_client limits client cleaned
              else (none, cleaned))
      go true y e f = add_client-Admits client b b (Shrinks-refl b) (ltb→lt _ _ e)
      go false true e f =
          add_client-Admits client b cleaned (clean_clients-Shrinks now b) (ltb→lt _ _ f)
      go false false e f = record {
        keeps = Shrinks-Keeps (clean_clients-Shrinks now b);
        known = λ state n. absurd (cc);
      }

  pub client_state-Admits :
      (client : Text) (now : ℕ) (b : Backend) → Admits client b (client_state limits client now b)
  unfolding client_state
  client_state-Admits client now b = go (lookup client cleaned.clients) refl
    where
      cleaned : Backend
      cleaned = clean_client client now b

      go :
          (found : Option Client)
          → lookup client cleaned.clients ≡ found
          → Admits client b (elim found [
            | some state ↦ (some state, cleaned)
            | none ↦ admit_client limits client now cleaned
          ])
      go none e =
          let admits = admit_client-Admits client now cleaned in
          record {
            keeps = Keeps-trans (Shrinks-Keeps (clean_client-Shrinks client now b)) admits.keeps;
            known = admits.known;
          }
      go (some state) e = record {
        keeps = Shrinks-Keeps (clean_client-Shrinks client now b);
        known = λ s n. e ∙ n;
      }

  -- Looking for room either fails, or goes on from a backend that has room for one captcha more.
  abbrev pub Roomy : Text → Backend → Type 0
  Roomy client d =
      (length d.captchas < limits.captcha_capacity)
      × (length (captchas_of client d) < limits.outstanding_per_ip)

  abbrev pub Goes :
      Text → (Backend → RiskResult × Backend) → Backend → RiskResult × Backend → Type 0
  Goes client found b r =
      ((d : Backend) × Shrinks b d × (r ≡ (limited, d)))
      ⊎ ((d : Backend) × Shrinks b d × Roomy client d × (r ≡ found d))

  with_room-Goes :
      (client : Text) (now : ℕ) (found : Backend → RiskResult × Backend) (b : Backend)
      → length (captchas_of client b) < limits.outstanding_per_ip
      → Goes client found b (with_room limits now found b)
  unfolding with_room
  with_room-Goes client now found b own =
      go (ltb (length b.captchas) limits.captcha_capacity)
        (ltb (length (clean_all now b).captchas) limits.captcha_capacity) refl refl
    where
      cleaned : Backend
      cleaned = clean_all now b

      s : Shrinks b cleaned
      s = clean_all-Shrinks now b

      go :
          (x y : Bool)
          → ltb (length b.captchas) limits.captcha_capacity ≡ x
          → ltb (length cleaned.captchas) limits.captcha_capacity ≡ y
          → Goes client found b
              (if x then found b else if y then found cleaned else (limited, cleaned))
      go true y e f = inr (b, Shrinks-refl b, (ltb→lt _ _ e, own), refl)
      go false true e f =
          inr (cleaned, s, (ltb→lt _ _ f, omega (arith, s.outstanding client)), refl)
      go false false e f = inl (cleaned, s, refl)

  pub with_captcha-Goes :
      (client : Text) (now : ℕ) (found : Backend → RiskResult × Backend) (b : Backend)
      → Goes client found b (with_captcha limits client now found b)
  unfolding with_captcha
  with_captcha-Goes client now found b =
      go (leb limits.outstanding_per_ip (length (captchas_of client cleaned))) refl
    where
      cleaned : Backend
      cleaned = clean_captchas client now b

      s : Shrinks b cleaned
      s = clean_captchas-Shrinks client now b

      go :
          (x : Bool)
          → leb limits.outstanding_per_ip (length (captchas_of client cleaned)) ≡ x
          → Goes client found b
              (if x then (limited, cleaned) else with_room limits now found cleaned)
      go true e = inl (cleaned, s, refl)
      go false e = elim (with_room-Goes client now found cleaned (leb_false→lt _ _ e)) [
        | inl (d, t, r) ↦ inl (d, Shrinks-trans s t, r)
        | inr (d, t, room, r) ↦ inr (d, Shrinks-trans s t, room, r)
      ]

  -- Counting in a window writes the state of a client that is known.
  count_captcha-Keeps :
      (client : Text) (now : ℕ) (state : Client) (b : Backend)
      → lookup client b.clients ≡ some state
      → Keeps b (count_captcha limits client now state b).1
  count_captcha-Keeps client now state b known = go (ltb limits.captcha_rate_limit window.count)
    where
      window : Window
      window = increase_window now limits.captcha_rate_window state.captcha

      counted : Backend
      counted = record b { clients = put client (record state { captcha = window }) b.clients }

      s : Shrinks b counted
      s = rewrite_client-Shrinks client state (record state { captcha = window }) b known

      go :
          (x : Bool)
          → Keeps b
              (if x
                then (limited, counted)
                else with_captcha limits client now (λ d. (allowed, d)) counted).1
      go true = Shrinks-Keeps s
      go false = elim (with_captcha-Goes client now (λ d. (allowed, d)) counted) [
        | inl (d, t, r) ↦ rw r (Shrinks-Keeps (Shrinks-trans s t))
        | inr (d, t, _, r) ↦ rw r (Shrinks-Keeps (Shrinks-trans s t))
      ]

  pub found_client-Keeps :
      (client : Text) (b : Backend) (r : Option Client × Backend)
      (found : Client → Backend → RiskResult × Backend)
      → Admits client b r
      → ((state : Client) → lookup client r.1.clients ≡ some state → Keeps r.1 (found state r.1).1)
      → Keeps b (found_client limits r found).1
  found_client-Keeps client b (none, d) found admits h = admits.keeps
  found_client-Keeps client b (some state, d) found admits h =
      Keeps-trans admits.keeps (h state (admits.known state refl))

  pub allow_captcha-Keeps :
      (client : Text) (now : ℕ) (b : Backend) → Keeps b (allow_captcha limits client now b).1
  unfolding allow_captcha
  allow_captcha-Keeps client now b =
      found_client-Keeps client b (client_state limits client now b)
        (count_captcha limits client now) (client_state-Admits client now b)
        (λ state known. count_captcha-Keeps client now state _ known)
