-- ===== src/Serving/Recording.antt =====
-- The recorder tells the truth, and changes nothing of what is sent.
use nina.Prelude.{
  ℕ, ◌≤◌, arith, true, All, ◌≡◌, refl, sym, ◌∙◌, ap, none, List, [], ◌∷◌, length, length-append,
  is_some,
}
use nina.Http.Writing.{
  Writer, Action, change, write_header, write, act, act_all, on_the_wire, is_informational, IsFinal,
  fresh_writer,
}
use nina.Serving.{Recorder, new_recorder, record_act, record_all}

-- What the recorder knows of the response below it.
pub record Knows (rec : Recorder) : Type 0 where
  pub status : rec.status ≡ (on_the_wire rec.writer).0
  pub wrote : rec.wrote ≡ is_some rec.writer.sent
  pub bytes : rec.bytes ≡ length rec.writer.body

record_act-writer :
    (rec : Recorder) (a : Action)
    → IsFinal a
    → Knows rec
    → (record_act rec a).writer ≡ act rec.writer a
unfolding act on_the_wire
record_act-writer rec (change f) f' k = refl
record_act-writer rec (write_header code) f k = ground (arith, f, k.wrote)
record_act-writer rec (write b) f k = ground (arith, k.wrote)

record_act-Knows : (rec : Recorder) (a : Action) → IsFinal a → Knows rec → Knows (record_act rec a)
unfolding act on_the_wire
record_act-Knows rec (change f) f' k = record {
  status = ground (arith, k.status, k.wrote);
  wrote = k.wrote;
  bytes = k.bytes;
}
record_act-Knows rec (write_header code) f k = record {
  status = ground (arith, f, k.status, k.wrote);
  wrote = ground (arith, f, k.wrote);
  bytes = ground (arith, f, k.bytes);
}
record_act-Knows rec (write b) f k = record {
  status = ground (arith, k.status, k.wrote);
  wrote = ground (arith, k.wrote);
  bytes = ground (arith, k.bytes, length-append rec.writer.body b);
}

pub record_all-Knows :
    (actions : List Action) (rec : Recorder)
    → All IsFinal actions
    → Knows rec
    → Knows (record_all rec actions)
      × ((record_all rec actions).writer ≡ act_all rec.writer actions)
unfolding record_all act_all
record_all-Knows [] rec f k = (k, refl)
record_all-Knows (a ∷ rest) rec (f, fs) k =
    let (later, e) = record_all-Knows rest (record_act rec a) fs (record_act-Knows rec a f k) in
    (later, e ∙ ap (λ w. act_all w rest) (record_act-writer rec a f k))

pub new-Knows : (w : Writer) → w.sent ≡ none → w.body ≡ [] → Knows (new_recorder w)
unfolding on_the_wire
new-Knows w s b = record { status = ground arith; wrote = ground arith; bytes = sym (ap length b) }

-- Whatever a handler that sends no informational status does with the recorder, the client gets what
-- it would have got without it; and the recorder's status, which is logged and counted, is the one
-- that the client gets, even if the handler writes none, or several; it knows whether the response has
-- started, and how long its body is.
pub record_all-tells :
    (w : Writer) (actions : List Action)
    → All IsFinal actions
    → w.sent ≡ none
    → w.body ≡ []
    → let rec = record_all (new_recorder w) actions in
      (rec.writer ≡ act_all w actions)
      × (rec.status ≡ (on_the_wire rec.writer).0)
      × (rec.wrote ≡ is_some rec.writer.sent)
      × (rec.bytes ≡ length rec.writer.body)
record_all-tells w actions f s b =
    let (k, e) = record_all-Knows actions (new_recorder w) f (new-Knows w s b) in
    (e, k.status, k.wrote, k.bytes)

-- After an informational status the recorder is not transparent: a status from 200 on that follows is
-- lost to the client, who gets 200 instead, and what is logged is the informational one.
pub record_all-informational :
    (early code : ℕ)
    → is_informational early ≡ true
    → 200 ≤ code
    → let actions = write_header early ∷ write_header code ∷ [] in
      let rec = record_all (new_recorder fresh_writer) actions in
      ((on_the_wire rec.writer).0 ≡ 200)
      × ((on_the_wire (act_all fresh_writer actions)).0 ≡ code)
      × (rec.status ≡ early)
unfolding record_all act_all act on_the_wire
record_all-informational early code e c = (ground (arith, e), ground (arith, e, c), refl)
