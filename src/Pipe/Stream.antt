-- ===== src/Pipe/Stream.antt =====
-- pipe.c: any interleaving of runs of `pipewrite`, `piperead` and `pipeclose`, by any number of
-- processes, as a stream of bytes.
use osass.Base.{
  ℕ, ◌-◌, ◌<◌, ◌≡◌, refl, ap, sym, arith, Bool, false, List, [], ◌∷◌, ◌++◌, length, take, drop, ◌∙◌,
  Outcome, ok, panic, ◌>>=◌, take-append-drop, length-drop,
}
use mathlib.Core.List.{append-nil, append_assoc}
use osass.Pipe.{Pipe, Run, returns, fails, sleeps, pipewrite, piperead, pipeclose}
use osass.Pipe.Window.{contents, IsValid}
use osass.Pipe.Write.{WriteEnds, pipewrite-WriteEnds, room}
use osass.Pipe.Read.{ReadEnds, piperead-ReadEnds, pipeclose_lem}

-- A run of a call: `writes n killed src`, with `src` what the call has left to write; `reads`; a close.
pub data Call : Type 0 where
  writes : ℕ → Bool → List ℕ → Call
  reads : ℕ → Bool → Call
  closes : Bool → Call

-- A run's effect: the pipe after it, the bytes that it put in, and the bytes that it handed out. The
-- bytes that a failing write has put in before are not reported by the code: they are those that fit.
pub record Effect : Type 0 where
  pub pipe : Pipe
  pub sent : List ℕ
  pub received : List ℕ

abbrev write_effect : Pipe → List ℕ → Outcome (Run ℕ (List ℕ)) → Outcome Effect
write_effect p src (ok (returns r q w)) = ok (record { pipe = q; sent = src; received = [] })
write_effect p src (ok (fails q w)) =
    ok (record { pipe = q; sent = take (room p) src; received = [] })
write_effect p src (ok (sleeps c rest q w)) =
    ok (record { pipe = q; sent = take (length src - length rest) src; received = [] })
write_effect p src (panic s) = panic s

abbrev read_effect : Outcome (Run (List ℕ) ℕ) → Outcome Effect
read_effect (ok (returns bs q w)) = ok (record { pipe = q; sent = []; received = bs })
read_effect (ok (fails q w)) = ok (record { pipe = q; sent = []; received = [] })
read_effect (ok (sleeps c rest q w)) = ok (record { pipe = q; sent = []; received = [] })
read_effect (panic s) = panic s

pub call : Pipe → Call → Outcome Effect
call p (writes n killed src) = write_effect p src (pipewrite n killed p src)
call p (reads n killed) = read_effect (piperead n killed p)
call p (closes writable) =
    pipeclose p writable >>= λ (f, q, w). ok (record { pipe = q; sent = []; received = [] })

pub calls : Pipe → List Call → Outcome Effect
calls p [] = ok (record { pipe = p; sent = []; received = [] })
calls p (c ∷ cs) = call p c >>= λ e. calls e.pipe cs >>= λ f.
    ok (record { pipe = f.pipe; sent = e.sent ++ f.sent; received = e.received ++ f.received })

-- What came out, and what the pipe holds, is what it held and what went in.
pub record Conserves (p : Pipe) (e : Effect) : Type 0 where
  pub stream : e.received ++ contents e.pipe ≡ contents p ++ e.sent
  pub valid : IsValid e.pipe
  pub unlocked : e.pipe.lock ≡ false

abbrev Done : Pipe → Outcome Effect → Type 0
Done p (ok e) = Conserves p e
Done p (panic s) = ⊥

take-sub-drop :
    (src : List ℕ) (k : ℕ)
    → k < length src
    → take (length src - length (drop k src)) src ≡ take k src
take-sub-drop src k h = ap (λ j. take j src) (omega (arith, length-drop k src))

write-Done :
    (n : ℕ) (killed : Bool) (p : Pipe) (src : List ℕ) (r : Outcome (Run ℕ (List ℕ)))
    → WriteEnds n killed p src r
    → Done p (write_effect p src r)
write-Done n killed p src (ok (returns x q w)) h = record {
  stream = h.3.queue;
  valid = h.3.valid;
  unlocked = h.3.unlocked;
}
write-Done n killed p src (ok (fails q w)) h = record {
  stream = h.3.queue;
  valid = h.3.valid;
  unlocked = h.3.unlocked;
}
write-Done n killed p src (ok (sleeps c rest q w)) h = record {
  stream = rw (h.4, take-sub-drop src (room p) h.0) h.5.queue;
  valid = h.5.valid;
  unlocked = h.5.unlocked;
}
write-Done n killed p src (panic s) h = h

read-Done :
    (n : ℕ) (killed : Bool) (p : Pipe) (r : Outcome (Run (List ℕ) ℕ))
    → IsValid p
    → p.lock ≡ false
    → ReadEnds n killed p r
    → Done p (read_effect r)
read-Done n killed p (ok (returns bs q w)) v l h = record {
  stream = rw (h.3, h.4) (take-append-drop n (contents p) ∙ sym (append-nil (contents p)));
  valid = h.5;
  unlocked = h.2;
}
read-Done n killed p (ok (fails q w)) v l h = ground (arith, append-nil (contents p))
read-Done n killed p (ok (sleeps c rest q w)) v l h = ground (arith, append-nil (contents p))
read-Done n killed p (panic s) v l h = h

call-Done : (c : Call) (p : Pipe) → IsValid p → p.lock ≡ false → Done p (call p c)
unfolding call
call-Done (writes n killed src) p v l =
    write-Done n killed p src (pipewrite n killed p src) (pipewrite-WriteEnds n killed p src v l)
call-Done (reads n killed) p v l =
    read-Done n killed p (piperead n killed p) v l (piperead-ReadEnds n killed p v l)
call-Done (closes writable) p v l =
    let (q, eq, open_r, open_w, queue, w, free) = pipeclose_lem p writable v l in
    rw eq (record { stream = queue ∙ sym (append-nil (contents p)); valid = w; unlocked = free })

-- Joining the effect of a call and that of the calls after it.
Conserves-join :
    (p : Pipe) (e f : Effect)
    → Conserves p e
    → Conserves e.pipe f
    → Conserves p
        (record { pipe = f.pipe; sent = e.sent ++ f.sent; received = e.received ++ f.received })
Conserves-join p e f c d = record {
  stream =
      append_assoc e.received f.received (contents f.pipe)
      ∙ ap (λ l. e.received ++ l) d.stream
      ∙ sym (append_assoc e.received (contents e.pipe) f.sent)
      ∙ ap (λ l. l ++ f.sent) c.stream
      ∙ append_assoc (contents p) e.sent f.sent;
  valid = d.valid;
  unlocked = d.unlocked;
}

Done-ok : (p : Pipe) (r : Outcome Effect) → Done p r → (e : Effect) × (r ≡ ok e) × Conserves p e
Done-ok p (ok e) d = (e, refl, d)
Done-ok p (panic s) d = absurd d

-- No byte is lost, doubled or reordered: for any sequence of runs on a valid pipe that starts with the
-- lock free, no run panics, and the bytes handed out, followed by those still held, are those held
-- at first followed by those put in. The pipe ends valid and its lock free.
pub calls-Conserves :
    (cs : List Call) (p : Pipe)
    → IsValid p
    → p.lock ≡ false
    → (e : Effect) × (calls p cs ≡ ok e) × Conserves p e
unfolding calls
calls-Conserves [] p v l = (
  record { pipe = p; sent = []; received = [] },
  refl,
  record { stream = sym (append-nil (contents p)); valid = v; unlocked = l },
)
calls-Conserves (c ∷ cs) p v l =
    let (e, eq, d) = Done-ok p (call p c) (call-Done c p v l) in
    let (f, eqs, ds) = calls-Conserves cs e.pipe d.valid d.unlocked in
    (
      record { pipe = f.pipe; sent = e.sent ++ f.sent; received = e.received ++ f.received },
      cc (eq, eqs),
      Conserves-join p e f d ds,
    )
