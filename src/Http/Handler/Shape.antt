-- ===== src/Http/Handler/Shape.antt =====
-- The body of a response: what a writer accepts once its header is sent.
use cocaine_framework_go.Prelude.{
  ℕ, ◌+◌, ◌-◌, ◌≤◌, ◌≡◌, refl, sym, ap, ◌∙◌, subst, ltb, length, if◌then◌else◌, Bytes, Bool, true,
  false, List, [], ◌∷◌, ◌++◌, map, Option, none, some, arith, append-nil,
}
use cocaine_framework_go.Errors.{Error, body_not_allowed, content_length}
use cocaine_framework_go.Effects.{done, panic, explicit, ◌>>=◌}
use cocaine_framework_go.Message.{new_chunk_v1, new_choke_v1}
use cocaine_framework_go.Worker.Response.{Act, writes, zero_copy_writes, closes, serve}
use cocaine_framework_go.Worker.Response.Terminal.{
  written, serve_ends_once, chosen_ending, final_ending, ending_message, Ending, choked,
}
use cocaine_framework_go.Http.Writer.{
  ResponseWriter, is_not_modified, body_allowed, write_checked, write_rest,
}

-- The writes of a list of acts that writes only.
abbrev pub body_acts : List (Bool × Bytes) → List Act
body_acts [] = []
body_acts ((true, b) ∷ bs) = writes b ∷ body_acts bs
body_acts ((false, b) ∷ bs) = zero_copy_writes b ∷ body_acts bs

abbrev pub size : List (Bool × Bytes) → ℕ
size [] = 0
size ((copied, b) ∷ bs) = length b + size bs

-- What a writer still accepts.
abbrev pub Room : Option ℕ → ℕ → List (Bool × Bytes) → Type 0
Room none written bs = Unit {0}
Room (some n) written bs = size bs ≤ n - written

-- A body that the writer's state allows.
pub record Body (w : ResponseWriter) (bs : List (Bool × Bytes)) : Type 0 where
  pub fits : Room w.content_length w.written bs
  pub allowed : is_not_modified w.status ≡ true → bs ≡ []

-- One write of a writer whose header is sent, after the acts `head`.
pub record Wrote (content : Bytes) (copied : Bool) (w : ResponseWriter) : Type 0 where
  pub next : ResponseWriter
  pub body : List (Bool × Bytes)
  pub result : ℕ × Option Error
  pub runs :
      (head : List Act)
      → write_rest content copied (w, head) ≡ done (next, head ++ body_acts body, result)
  pub stays : next.wrote_header ≡ true
  pub rest : (bs : List (Bool × Bytes)) → Body next bs → Body w (body ++ bs)

checked :
    (c : ℕ) (cs : Bytes) (copied : Bool) (w : ResponseWriter) (head : List Act) (b : Bool)
    → w.wrote_header ≡ true
    → is_not_modified w.status ≡ b
    → write_rest (c ∷ cs) copied (w, head)
      ≡ write_checked (c ∷ cs) copied w head (if b then false else true)
unfolding write_rest body_allowed
checked c cs copied w head b o e =
    ap
      (λ x.
        (if x then done (if is_not_modified w.status then false else true) else panic explicit)
        >>= write_checked (c ∷ cs) copied w head)
      o
    ∙ ap (λ x. write_checked (c ∷ cs) copied w head (if x then false else true)) e

sent_act :
    (copied : Bool) (content : Bytes)
    → (if copied then writes content else zero_copy_writes content) ∷ []
      ≡ body_acts ((copied, content) ∷ [])
sent_act true content = refl
sent_act false content = refl

pub write-Wrote :
    (content : Bytes) (copied : Bool) (w : ResponseWriter)
    → w.wrote_header ≡ true
    → Wrote content copied w
unfolding write_rest
write-Wrote [] copied w o = record {
  next = w;
  body = [];
  result = (0, none);
  runs = λ head. ap (λ x. done (w, x, (0, none))) (sym (append-nil head));
  stays = o;
  rest = λ bs b. b;
}
write-Wrote (c ∷ cs) copied w o = by_status (is_not_modified w.status) refl
  where
    content : Bytes
    content = c ∷ cs

    counted : ResponseWriter
    counted = record w { written = w.written + length content }

    by_size :
        (n : ℕ) (b : Bool)
        → is_not_modified w.status ≡ false
        → w.content_length ≡ some n
        → ltb n (w.written + length content) ≡ b
        → Wrote content copied w
    by_size n true e f g = record {
      next = counted;
      body = [];
      result = (0, some content_length);
      runs = λ head. checked c cs copied w head false o e ∙ simp (f, g, append-nil head);
      stays = o;
      rest = λ bs b.
          let left : size bs ≤ n - (w.written + length content) =
            subst (λ l. Room l (w.written + length content) bs) f b.fits in
          record { fits = rw f (omega (arith, left)); allowed = b.allowed };
    }
    by_size n false e f g = record {
      next = counted;
      body = (copied, content) ∷ [];
      result = (length content, none);
      runs = λ head. checked c cs copied w head false o e ∙ simp (f, g, sent_act copied content);
      stays = o;
      rest = λ bs b.
          let left : size bs ≤ n - (w.written + length content) =
            subst (λ l. Room l (w.written + length content) bs) f b.fits in
          let small : w.written + length content ≤ n = ground (arith, g) in
          record { fits = rw f (omega (arith, left, small)); allowed = λ h. cc };
    }

    by_length :
        (l : Option ℕ)
        → is_not_modified w.status ≡ false
        → w.content_length ≡ l
        → Wrote content copied w
    by_length none e f = record {
      next = counted;
      body = (copied, content) ∷ [];
      result = (length content, none);
      runs = λ head. checked c cs copied w head false o e ∙ simp (f, sent_act copied content);
      stays = o;
      rest = λ bs b. record { fits = rw f tt; allowed = λ h. cc };
    }
    by_length (some n) e f = by_size n (ltb n (w.written + length content)) e f refl

    by_status : (b : Bool) → is_not_modified w.status ≡ b → Wrote content copied w
    by_status true e = record {
      next = w;
      body = [];
      result = (0, some body_not_allowed);
      runs = λ head. checked c cs copied w head true o e;
      stays = o;
      rest = λ bs b. b;
    }
    by_status false e = by_length w.content_length e refl

pub empty-Body : (w : ResponseWriter) → Body w []
empty-Body w = record { fits = nothing_fits w.content_length; allowed = λ h. refl }
  where
    nothing_fits : (l : Option ℕ) → Room l w.written []
    nothing_fits none = tt
    nothing_fits (some n) = omega arith

-- The bytes of each write.
abbrev pub parts : List (Bool × Bytes) → List Bytes
parts [] = []
parts ((copied, b) ∷ bs) = b ∷ parts bs

written_body : (bs : List (Bool × Bytes)) → written (body_acts bs ++ closes ∷ []) ≡ parts bs
written_body [] = refl
written_body ((true, b) ∷ bs) = ap (◌∷◌ b) (written_body bs)
written_body ((false, b) ∷ bs) = ap (◌∷◌ b) (written_body bs)

ending_body : (bs : List (Bool × Bytes)) → chosen_ending (body_acts bs ++ closes ∷ []) ≡ some choked
ending_body [] = refl
ending_body ((true, b) ∷ bs) = ending_body bs
ending_body ((false, b) ∷ bs) = ending_body bs

-- What goes to the connection for a head, a body and the close.
pub serve-parts :
    (event stack head : Bytes) (bs : List (Bool × Bytes)) (session : ℕ)
    → serve event (zero_copy_writes head ∷ (body_acts bs ++ closes ∷ [])) none stack session
      ≡ new_chunk_v1 session head
        ∷ (map (new_chunk_v1 session) (parts bs) ++ new_choke_v1 session ∷ [])
serve-parts event stack head bs session =
    serve_ends_once event (zero_copy_writes head ∷ (body_acts bs ++ closes ∷ [])) none stack session
    ∙ ap
        (λ x.
          new_chunk_v1 session head
          ∷ (map (new_chunk_v1 session) x
              ++ ending_message session (final_ending (body_acts bs ++ closes ∷ []) choked) ∷ []))
        (written_body bs)
    ∙ ap
        (λ (e : Option Ending).
          new_chunk_v1 session head
          ∷ (map (new_chunk_v1 session) (parts bs)
              ++ ending_message session (elim e [ some x ↦ x | none ↦ choked ]) ∷ []))
        (ending_body bs)
