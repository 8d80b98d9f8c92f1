-- ===== src/Session/FileTask/Upload.antt =====
-- What an upload stores: `savefile` and its loop.
use filedisk_server.Common.{
  ℕ, zero, suc, ◌<◌, ◌≡◌, refl, sym, ap, ◌∙◌, ◌⊎◌, inl, inr, Bool, true, false, [], overlay,
  eq_bytes, eq_bytes→eq, arith, subst, Bool-cases, Option-cases, if◌then◌else◌,
}
use filedisk_server.Common.Int.{ℤ, pos}
use filedisk_server.Session.Wire.{FileHeader, bool_bytes}
use filedisk_server.Session.Services.{
  Text, Services, World, out_of_fuel, Outcome, ok, fault, after, pure, ◌>>◌,
}
use filedisk_server.Session.Values.{array_length, path_of}
use filedisk_server.Session.FileTask.{
  send_bytes, store_file, save_loop, save_new, save_file, is_file_exists,
}

module _ {C R Q F : Type 0} (o : Services C R Q F) where
  -- Only the connection has changed.
  pub record Talked (w w' : World C R Q F) : Type 0 where
    pub redis : w'.redis ≡ w.redis
    pub mysql : w'.mysql ≡ w.mysql
    pub files : w'.files ≡ w.files

  -- The buffer and the connection after one `receive` of the loop, and after an error message too.
  abbrev got_by : FileHeader → Text → C → Text
  got_by fh buff c = overlay (o.receive c fh.filelen).0 buff

  abbrev refused : FileHeader → C → C
  refused fh c = o.send (o.receive c fh.filelen).1 (bool_bytes true) (pos 1)

  save_loop-hit :
      (fuel : ℕ) (fh : FileHeader) (buff : Text) (w : World C R Q F)
      → eq_bytes (o.md5 (got_by fh buff w.conn)) fh.md5 ≡ true
      → save_loop o (suc fuel) fh buff w
        ≡ (ok (got_by fh buff w.conn), record w { conn = (o.receive w.conn fh.filelen).1 })
  unfolding save_loop
  save_loop-hit fuel fh buff w e = rw e

  save_loop-miss :
      (fuel : ℕ) (fh : FileHeader) (buff : Text) (w : World C R Q F)
      → eq_bytes (o.md5 (got_by fh buff w.conn)) fh.md5 ≡ false
      → save_loop o (suc fuel) fh buff w
        ≡ save_loop o fuel fh (got_by fh buff w.conn) (record w { conn = refused fh w.conn })
  unfolding save_loop bool_bytes
  save_loop-miss fuel fh buff w e = rw e

  save_loop-digest :
      (fuel : ℕ) (fh : FileHeader) (buff : Text) (w : World C R Q F) (got : Text)
      (w' : World C R Q F)
      → save_loop o fuel fh buff w ≡ (ok got, w')
      → (o.md5 got ≡ fh.md5) × Talked w w'
  save_loop-digest zero fh buff w got w' e = unfold save_loop in ground arith
  save_loop-digest (suc fuel) fh buff w got w' e =
      elim (Bool-cases (eq_bytes (o.md5 (got_by fh buff w.conn)) fh.md5)) [
        | inl hit ↦ ground (
          arith,
          save_loop-hit fuel fh buff w hit,
          eq_bytes→eq (o.md5 (got_by fh buff w.conn)) fh.md5 hit,
        )
        | inr miss ↦
            let (m, t) =
              save_loop-digest fuel fh (got_by fh buff w.conn)
                (record w { conn = refused fh w.conn }) got w'
                (sym (save_loop-miss fuel fh buff w miss) ∙ e) in
            (m, record { redis = t.redis; mysql = t.mysql; files = t.files })
      ]

  -- The digest is right at the `k`-th receive from here on, whether or not it was before.
  abbrev pub Matches : ℕ → FileHeader → Text → C → Type 0
  Matches zero fh buff c = eq_bytes (o.md5 (got_by fh buff c)) fh.md5 ≡ true
  Matches (suc k) fh buff c = Matches k fh (got_by fh buff c) (refused fh c)

  abbrev pub Ends : ℕ → FileHeader → Text → World C R Q F → Type 0
  Ends fuel fh buff w =
      (got : Text) × (w' : World C R Q F) × (save_loop o fuel fh buff w ≡ (ok got, w'))
      × (o.md5 got ≡ fh.md5)

  Ends-now :
      (fuel : ℕ) (fh : FileHeader) (buff : Text) (w : World C R Q F)
      → eq_bytes (o.md5 (got_by fh buff w.conn)) fh.md5 ≡ true
      → Ends (suc fuel) fh buff w
  Ends-now fuel fh buff w hit = (
    got_by fh buff w.conn,
    record w { conn = (o.receive w.conn fh.filelen).1 },
    save_loop-hit fuel fh buff w hit,
    eq_bytes→eq (o.md5 (got_by fh buff w.conn)) fh.md5 hit,
  )

  -- If the digest is right at the `k`-th receive, the loop ends with fuel for `k + 1` rounds.
  pub save_loop-Ends :
      (k fuel : ℕ) (fh : FileHeader) (buff : Text) (w : World C R Q F)
      → k < fuel
      → Matches k fh buff w.conn
      → Ends fuel fh buff w
  save_loop-Ends k zero fh buff w lt m = absurd (omega arith)
  save_loop-Ends zero (suc fuel) fh buff w lt hit = Ends-now fuel fh buff w hit
  save_loop-Ends (suc k) (suc fuel) fh buff w lt m =
      elim (Bool-cases (eq_bytes (o.md5 (got_by fh buff w.conn)) fh.md5)) [
        | inl hit ↦ Ends-now fuel fh buff w hit
        | inr miss ↦
            let (got, w', e, d) =
              save_loop-Ends k fuel fh (got_by fh buff w.conn)
                (record w { conn = refused fh w.conn }) (omega arith) m in
            (got, w', save_loop-miss fuel fh buff w miss ∙ e, d)
      ]

  -- On a connection from which nothing more comes, a buffer with another digest than the announced
  -- one keeps the loop going for ever: no fuel is enough.
  pub save_loop-spins :
      (IsShut : C → Type 0)
      → ((c : C) (n : ℤ) → IsShut c → ((o.receive c n).0 ≡ []) × IsShut (o.receive c n).1)
      → ((c : C) (msg : Text) (n : ℤ) → IsShut c → IsShut (o.send c msg n))
      → (fuel : ℕ) (fh : FileHeader) (buff : Text) (w : World C R Q F) → IsShut w.conn
      → eq_bytes (o.md5 buff) fh.md5 ≡ false
      → (save_loop o fuel fh buff w).0 ≡ fault out_of_fuel
  save_loop-spins IsShut receives sends zero fh buff w shut miss = unfold save_loop in refl
  save_loop-spins IsShut receives sends (suc fuel) fh buff w shut miss =
      ap (λ r. r.0) (save_loop-miss fuel fh buff w (rw same miss))
      ∙ save_loop-spins IsShut receives sends fuel fh (got_by fh buff w.conn)
          (record w { conn = refused fh w.conn }) (sends _ _ _ (receives w.conn fh.filelen shut).1)
          (rw same miss)
    where
      same : got_by fh buff w.conn ≡ buff
      same = rw (receives w.conn fh.filelen shut).0

  is_file_exists-files :
      (name : Text) (userid : ℕ) (w : World C R Q F)
      → (is_file_exists o name userid w).1.files ≡ w.files
  unfolding is_file_exists
  is_file_exists-files name userid w = ground arith

  -- What a `savefile` for the digest `md5` does to the files: nothing, or it stores bytes with this
  -- digest under the name made of it.
  abbrev pub Stores : Text → F → F → Type 0
  Stores md5 f f' =
      (f' ≡ f) ⊎ ((got : Text) × (o.md5 got ≡ md5) × (f' ≡ o.store f (path_of md5) got))

  stored_after :
      (fuel : ℕ) (buff : Text) (fh : FileHeader) (w w' : World C R Q F) (name : Text)
      (x : Outcome Text × World C R Q F)
      → save_loop o fuel fh buff w ≡ x
      → after (λ buff. store_file o (path_of fh.md5) buff >> pure (path_of fh.md5)) x
        ≡ (ok name, w')
      → (name ≡ path_of fh.md5) × Stores fh.md5 w.files w'.files
  unfolding store_file
  stored_after fuel buff fh w w' name (ok got, w1) run e =
      let (d, t) = save_loop-digest fuel fh buff w got w1 run in
      (ground arith, inr (got, d, ground arith))
  stored_after fuel buff fh w w' name (fault c, w1) run e = ground arith

  save_new-Stores :
      (fuel : ℕ) (garbage : ℕ → Text) (fh : FileHeader) (w w' : World C R Q F) (name : Text)
      → save_new o fuel garbage fh w ≡ (ok name, w')
      → (name ≡ path_of fh.md5) × Stores fh.md5 w.files w'.files
  save_new-Stores fuel garbage fh w w' name e = elim (Option-cases (array_length fh.filelen)) [
    | inl q ↦ unfold save_new in ground (arith, e, q)
    | inr (n, q) ↦
        unfold save_new in
        stored_after fuel (garbage n) fh w w' name (save_loop o fuel fh (garbage n) w) refl
          (rw q at e)
  ]

  exists_after :
      (fuel : ℕ) (garbage : ℕ → Text) (fh : FileHeader) (w w' : World C R Q F) (name : Text)
      (x : Outcome Bool × World C R Q F)
      → x.1.files ≡ w.files
      → after
          (λ isexits.
            send_bytes o (bool_bytes isexits)
            >> (if isexits then pure (path_of fh.md5) else save_new o fuel garbage fh))
          x
        ≡ (ok name, w')
      → (name ≡ path_of fh.md5) × Stores fh.md5 w.files w'.files
  unfolding send_bytes
  exists_after fuel garbage fh w w' name (ok true, w1) same e = (ground arith, inl (ground arith))
  exists_after fuel garbage fh w w' name (ok false, w1) same e =
      let (p, s) = save_new-Stores fuel garbage fh _ w' name e in
      (p, subst (λ f. Stores fh.md5 f w'.files) same s)
  exists_after fuel garbage fh w w' name (fault c, w1) same e = ground arith

  -- A `savefile` that returns, returns the name made of the announced digest, and has left the files
  -- alone or stored under this name bytes that have this digest.
  pub save_file-Stores :
      (fuel : ℕ) (garbage : ℕ → Text) (fh : FileHeader) (userid : ℕ) (w w' : World C R Q F)
      (name : Text)
      → save_file o fuel garbage fh userid w ≡ (ok name, w')
      → (name ≡ path_of fh.md5) × Stores fh.md5 w.files w'.files
  unfolding save_file
  save_file-Stores fuel garbage fh userid w w' name e =
      exists_after fuel garbage fh w w' name (is_file_exists o (path_of fh.md5) userid w)
        (is_file_exists-files (path_of fh.md5) userid w) e
