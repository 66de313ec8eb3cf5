-- ===== src/Risk/Shrinking.antt =====
-- Cleaning only takes away: what every cleaning loop of the memory backend keeps.
use cool_admin_go_next.Common.{
  ℕ, ◌≤◌, ◌≡◌, refl, ◌∙◌, Bool, true, false, [], ◌∷◌, Text, Option, none, some, Map, lookup, erase,
  put, length, leb, if◌then◌else◌, text_eq, text_eq_iff, arith, Bool-cases, inl, inr,
  lookup-erase-none, length-erase_le, length-put_known, lookup-put_same, lookup-put_other,
  lookup-erase_same, lookup-erase_other,
}
use cool_admin_go_next.Risk.Memory.{
  Captcha, Client, Backend, captchas_of, or_empty, write_captchas, remove_captcha, clean_entries,
  clean_captchas, clean_records, clean_all, is_idle, reset_client, clean_known, clean_client,
  clean_each_client, clean_clients,
}

pub record Shrinks (a b : Backend) : Type 0 where
  pub accounts : b.accounts ≡ a.accounts
  pub clients : length b.clients ≤ length a.clients
  pub captchas : length b.captchas ≤ length a.captchas
  pub outstanding : (client : Text) → length (captchas_of client b) ≤ length (captchas_of client a)
  pub gone : (id : Text) → lookup id a.captchas ≡ none → lookup id b.captchas ≡ none

pub Shrinks-refl : (a : Backend) → Shrinks a a
Shrinks-refl a = record {
  accounts = refl;
  clients = omega arith;
  captchas = omega arith;
  outstanding = λ client. omega arith;
  gone = λ id h. h;
}

pub Shrinks-trans : {a b c : Backend} → Shrinks a b → Shrinks b c → Shrinks a c
Shrinks-trans s t = record {
  accounts = t.accounts ∙ s.accounts;
  clients = omega (arith, s.clients, t.clients);
  captchas = omega (arith, s.captchas, t.captchas);
  outstanding = λ client. omega (arith, s.outstanding client, t.outstanding client);
  gone = λ id h. t.gone id (s.gone id h);
}

-- What is written back of a client's captchas is no more than before.
write_captchas-other :
    (client other : Text) (rest : Map ℕ) (m : Map (Map ℕ))
    → text_eq client other ≡ false
    → lookup other (write_captchas client rest m) ≡ lookup other m
write_captchas-other client other [] m h = lookup-erase_other other client m h
write_captchas-other client other (e ∷ es) m h = lookup-put_other other client (e ∷ es) m h

write_captchas-same :
    (client : Text) (rest : Map ℕ) (m : Map (Map ℕ))
    → or_empty (lookup client (write_captchas client rest m)) ≡ rest
write_captchas-same client [] m = rw (lookup-erase_same client m)
write_captchas-same client (e ∷ es) m = rw (lookup-put_same client (e ∷ es) m)

pub captchas_of-remove_captcha :
    (captcha_id client other : Text) (b : Backend)
    → length (captchas_of other (remove_captcha captcha_id client b)) ≤ length (captchas_of other b)
unfolding remove_captcha
captchas_of-remove_captcha captcha_id client other b = elim (Bool-cases (text_eq client other)) [
  | inl e ↦
      let same : client ≡ other = (text_eq_iff client other).0 e in
      rw (← same) (
        rw
          (write_captchas-same client (erase captcha_id (captchas_of client b))
            b.captchas_by_client)
          (length-erase_le captcha_id (captchas_of client b)))
  | inr e ↦
      rw
        (write_captchas-other client other (erase captcha_id (captchas_of client b))
          b.captchas_by_client e)
        (omega arith)
]

pub remove_captcha-Shrinks :
    (captcha_id client : Text) (b : Backend) → Shrinks b (remove_captcha captcha_id client b)
unfolding remove_captcha
remove_captcha-Shrinks captcha_id client b = record {
  accounts = refl;
  clients = omega arith;
  captchas = length-erase_le captcha_id b.captchas;
  outstanding = λ other. captchas_of-remove_captcha captcha_id client other b;
  gone = λ id h. lookup-erase-none id captcha_id b.captchas h;
}

remove_if-Shrinks :
    (expired : Bool) (captcha_id client : Text) (b : Backend)
    → Shrinks b (if expired then remove_captcha captcha_id client b else b)
remove_if-Shrinks true captcha_id client b = remove_captcha-Shrinks captcha_id client b
remove_if-Shrinks false captcha_id client b = Shrinks-refl b

clean_entries-Shrinks :
    (client : Text) (now : ℕ) (entries : Map ℕ) (b : Backend)
    → Shrinks b (clean_entries client now entries b)
unfolding clean_entries
clean_entries-Shrinks client now [] b = Shrinks-refl b
clean_entries-Shrinks client now ((captcha_id, expires_at) ∷ entries) b =
    Shrinks-trans (remove_if-Shrinks (leb expires_at now) captcha_id client b)
      (clean_entries-Shrinks client now entries _)

pub clean_captchas-Shrinks :
    (client : Text) (now : ℕ) (b : Backend) → Shrinks b (clean_captchas client now b)
unfolding clean_captchas
clean_captchas-Shrinks client now b = clean_entries-Shrinks client now (captchas_of client b) b

clean_records-Shrinks :
    (now : ℕ) (entries : Map Captcha) (b : Backend) → Shrinks b (clean_records now entries b)
unfolding clean_records
clean_records-Shrinks now [] b = Shrinks-refl b
clean_records-Shrinks now ((captcha_id, c) ∷ entries) b =
    Shrinks-trans (remove_if-Shrinks (leb c.expires_at now) captcha_id c.client b)
      (clean_records-Shrinks now entries _)

pub clean_all-Shrinks : (now : ℕ) (b : Backend) → Shrinks b (clean_all now b)
unfolding clean_all
clean_all-Shrinks now b = clean_records-Shrinks now b.captchas b

-- Writing the state of a known client, and deleting one.
pub rewrite_client-Shrinks :
    (client : Text) (old state : Client) (b : Backend)
    → lookup client b.clients ≡ some old
    → Shrinks b (record b { clients = put client state b.clients })
rewrite_client-Shrinks client old state b h = record {
  accounts = refl;
  clients = length-put_known client old state b.clients h;
  captchas = omega arith;
  outstanding = λ other. omega arith;
  gone = λ id g. g;
}

erase_client-Shrinks :
    (client : Text) (b : Backend) → Shrinks b (record b { clients = erase client b.clients })
erase_client-Shrinks client b = record {
  accounts = refl;
  clients = length-erase_le client b.clients;
  captchas = omega arith;
  outstanding = λ other. omega arith;
  gone = λ id g. g;
}

erase_if-Shrinks :
    (idle : Bool) (client : Text) (b : Backend)
    → Shrinks b (if idle then record b { clients = erase client b.clients } else b)
erase_if-Shrinks true client b = erase_client-Shrinks client b
erase_if-Shrinks false client b = Shrinks-refl b

pub clean_client-Shrinks :
    (client : Text) (now : ℕ) (b : Backend) → Shrinks b (clean_client client now b)
unfolding clean_client clean_known
clean_client-Shrinks client now b = go (lookup client b.clients) refl
  where
    go :
        (found : Option Client)
        → lookup client b.clients ≡ found
        → Shrinks b (elim found [ none ↦ b | some state ↦ clean_known client now state b ])
    go none e = Shrinks-refl b
    go (some state) e =
        let written = record b { clients = put client (reset_client now state) b.clients } in
        let cleaned = clean_captchas client now written in
        Shrinks-trans (rewrite_client-Shrinks client state (reset_client now state) b e) (
          Shrinks-trans (clean_captchas-Shrinks client now written)
            (erase_if-Shrinks (is_idle client (reset_client now state) cleaned) client cleaned))

clean_each_client-Shrinks :
    (now : ℕ) (clients : Map Client) (b : Backend) → Shrinks b (clean_each_client now clients b)
unfolding clean_each_client
clean_each_client-Shrinks now [] b = Shrinks-refl b
clean_each_client-Shrinks now ((client, _) ∷ clients) b =
    Shrinks-trans (clean_client-Shrinks client now b)
      (clean_each_client-Shrinks now clients (clean_client client now b))

pub clean_clients-Shrinks : (now : ℕ) (b : Backend) → Shrinks b (clean_clients now b)
unfolding clean_clients
clean_clients-Shrinks now b =
    Shrinks-trans (clean_all-Shrinks now b)
      (clean_each_client-Shrinks now (clean_all now b).clients (clean_all now b))
