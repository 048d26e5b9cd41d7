-- ===== src/Harness/Receipt/Tests.antt =====
-- The receipt over a database whose state counts the keys and pages it was given.
use rust_browser_proofs.Base.{
  Result, ok, err, subst, take, drop, ◌-◌, ℕ, ◌+◌, ◌≡◌, refl, none, List, [], ◌∷◌, ◌++◌, length,
}
use rust_browser_proofs.Base.Decimal.{decimal}
use rust_browser_proofs.Base.Text.{concat}
use rust_browser_proofs.Base.Bytes.{bytes}
use rust_browser_proofs.Base.Step.{pure, modify}
use rust_browser_proofs.Harness.Receipt.Expected.{expected, hash_all, receipt-Expected}
use rust_browser_proofs.Harness.Receipt.Ordered.{Layout, Store, empty, ordered}
use rust_browser_proofs.Harness.Receipt.Parity.{Agree, Alike, Same}
use rust_browser_proofs.Harness.Receipt.{
  Call, Database, Blake3, le_bytes, script_key, padded, receipt, run_script, compute_receipt,
  for_each, probe_absent, hash_pages, hash_pairs,
}

-- A back end that adds a number to its state for each key put and each page appended.
abbrev counting : ℕ → Database
counting step = record {
  World = ℕ;
  begin_write = pure tt;
  put = λ key value. modify (λ n. n + step);
  delete = λ key. pure tt;
  link_segment = λ name. pure tt;
  commit = pure tt;
  create_segment = pure tt;
  append_page = λ page. modify (λ n. n + step);
  set_manifest = λ text. pure tt;
  seal = pure tt;
  begin_read = pure tt;
  scan = λ low high. pure ((bytes low, bytes high) ∷ []);
  get = λ key. pure none;
  drop_read = pure tt;
  open_segment = λ name. pure tt;
  page_count = pure (4 ∷ 0 ∷ []);
  read_page = λ p. pure (p ∷ []);
}

-- How segments are stored for the tests: the count and the pages as they are.
abbrev plain : Layout
plain = record {
  page_count = λ pages. le_bytes 8 (length pages);
  page = λ pages p. bytes (concat (take 1 (drop (p - 1) pages)));
}

abbrev Equal : Store → Store → Type 0
Equal v w = v ≡ w

Same-refl : {A : Type 0} (p : Result (Unit {0}) A × Store) → Same Equal p p
Same-refl (ok a, s) = (refl, refl)
Same-refl (err e, s) = tt

Alike-refl : {A : Type 0} (m : Call Store A) → Alike Equal m m
Alike-refl m v w r = subst (λ x. Same Equal (m v) (m x)) r (Same-refl (m v))

ordered-Agree : Agree (ordered plain) (ordered plain) Equal
ordered-Agree =
    let D : Database = ordered plain in
    record {
      begin_write = Alike-refl D.begin_write;
      put = λ key value. Alike-refl (D.put key value);
      delete = λ key. Alike-refl (D.delete key);
      link_segment = λ name. Alike-refl (D.link_segment name);
      commit = Alike-refl D.commit;
      create_segment = Alike-refl D.create_segment;
      append_page = λ page. Alike-refl (D.append_page page);
      set_manifest = λ text. Alike-refl (D.set_manifest text);
      seal = Alike-refl D.seal;
      begin_read = Alike-refl D.begin_read;
      scan = λ low high. Alike-refl (D.scan low high);
      get = λ key. Alike-refl (D.get key);
      drop_read = Alike-refl D.drop_read;
      open_segment = λ name. Alike-refl (D.open_segment name);
      page_count = Alike-refl D.page_count;
      read_page = λ p. Alike-refl (D.read_page p);
    }

abbrev joining : Blake3
joining = record {
  Hasher = List ℕ;
  new = [];
  update = λ h b. h ++ b;
  hex = λ h. decimal (length h);
}

scan_bound : bytes "a\u{7f}" ≡ 97 ∷ 127 ∷ []
scan_bound = refl

count_in_bytes : le_bytes 8 513 ≡ 1 ∷ 2 ∷ 0 ∷ 0 ∷ 0 ∷ 0 ∷ 0 ∷ 0 ∷ []
unfolding le_bytes
count_in_bytes = refl

padded_key : script_key 7 ≡ "script-key-007"
unfolding script_key padded decimal
padded_key = refl

-- 25 keys, 15 more, 10 put again and 3 pages; 6 chunks of bytes are hashed for the one pair.
receipt_run : (receipt (counting 1) joining 0).1 ≡ 53
unfolding receipt run_script compute_receipt for_each script_key padded probe_absent hash_pages
    hash_pairs le_bytes
receipt_run = refl

receipt-Expected_example :
    (receipt (ordered plain) joining empty).0
    ≡ ok (joining.hex (hash_all joining joining.new (expected plain)))
receipt-Expected_example =
    receipt-Expected (ordered plain) plain Equal ordered-Agree joining empty refl
