-- ===== src/Native/Honest/Typing.antt =====
-- `dispatch_type_text` of src/lib.rs types its text, whole and in order.
use Prim.Native.Char.{Char}
use praefectus.Prelude.{
  ℕ, ℤ, ◌≡◌, sym, ap, ◌∙◌, Bool, true, false, String, Option, none, List, [], ◌∷◌, ◌++◌,
  append_assoc, append-nil, arith, length, ◌==◌, if◌then◌else◌,
}
use praefectus.Native.Session.{Desktop, Exec, Input, Session, pure, send, type_chunk, ◌>>◌}
use praefectus.Native.{
  chars, chunk_size, dispatch_type_text, refuse_if, stop, type_chars, type_clear, type_rest,
  type_return,
}
use praefectus.Native.Honest.{
  Begun, Ends, Ends-bind, Ends-pure, Ends-raise, Ends-send, Ends-stop, Ends-then, typed,
}

-- What is left to type, after the text that has been typed.
shift : (a b cs : List Char) (c : Char) → (a ++ (b ++ (c ∷ []))) ++ cs ≡ a ++ (b ++ (c ∷ cs))
shift a b cs c = append_assoc a (b ++ (c ∷ [])) cs ∙ ap (λ x. a ++ x) (append_assoc b (c ∷ []) cs)

module _ {desktop : Desktop} where
  Ends-if :
      (b : Bool) (m n : Exec desktop (Bool × List Char)) (s : Session desktop)
      (Holds : Bool × List Char → Session desktop → Type 0)
      → Ends Holds (m s).0 (m s).1
      → Ends Holds (n s).0 (n s).1
      → Ends Holds ((if b then m else n) s).0 ((if b then m else n) s).1
  Ends-if true m n s Holds h k = h
  Ends-if false m n s Holds h k = k

  -- After the loop, what was typed and what is left in the chunk make up the text.
  abbrev Typed : List Char → Bool × List Char → Session desktop → Type 0
  Typed text found s = Begun found.0 s × (typed s.inputs ++ found.1 ≡ text)

  Ends-type_chars :
      (size : ℕ) (delay : Option ℕ) (deadline : ℤ) (cs chunk text : List Char) (started : Bool)
      (s : Session desktop)
      → Begun started s
      → typed s.inputs ++ (chunk ++ cs) ≡ text
      → Ends
          (Typed text)
          (type_chars size delay deadline cs chunk started s).0
          (type_chars size delay deadline cs chunk started s).1
  unfolding type_chars
  Ends-type_chars size delay deadline [] chunk text started s b h =
      Ends-pure (started, chunk) s (Typed text)
        (b, ap (λ x. typed s.inputs ++ x) (sym (append-nil chunk)) ∙ h)
  Ends-type_chars size delay deadline (c ∷ cs) chunk text started s b h =
      Ends-bind (stop started _ deadline) _ s (Typed text) (
        Ends-stop started _ deadline s _ b λ s1 p.
          Ends-if (length (chunk ++ (c ∷ [])) == size)
            (send (type_chunk (chunk ++ (c ∷ [])) false false delay)
              >> type_chars size delay deadline cs [] true)
            (type_chars size delay deadline cs (chunk ++ (c ∷ [])) started) s1 (Typed text)
            (Ends-bind (send (type_chunk (chunk ++ (c ∷ [])) false false delay)) _ s1 (Typed text) (
              Ends-send _ s1 _ λ s2 q.
                Ends-type_chars size delay deadline cs [] text true s2
                  (λ e. absurd (ground (arith, e)))
                  (ap (λ l. typed l ++ cs)
                      (q
                        ∙ ap
                            (λ (l : List Input).
                              type_chunk (chunk ++ (c ∷ [])) false false delay ∷ l)
                            p)
                    ∙ (shift (typed s.inputs) chunk cs c ∙ h))))
            (Ends-type_chars size delay deadline cs (chunk ++ (c ∷ [])) text started s1
              (λ e. p ∙ b e)
              (ap (λ l. typed l ++ ((chunk ++ (c ∷ [])) ++ cs)) p
                ∙ (ap (λ x. typed s.inputs ++ x) (append_assoc chunk (c ∷ []) cs) ∙ h))))

  Ends-type_clear :
      (clear : Bool) (s : Session desktop)
      → s.inputs ≡ []
      → Ends
          (λ started s'. Begun started s' × (typed s'.inputs ≡ []))
          (type_clear clear s).0
          (type_clear clear s).1
  Ends-type_clear false s p = Ends-pure false s _ ((λ e. p), ap typed p)
  Ends-type_clear true s p =
      Ends-bind (send (type_chunk [] true false none)) (λ u. pure true) s _
        (Ends-send _ s _ λ s1 q. Ends-pure true s1 _ (
          (λ e. absurd (ground (arith, e))),
          ap typed (q ∙ ap (λ (l : List Input). type_chunk [] true false none ∷ l) p),
        ))

  Ends-type_rest :
      (delay : Option ℕ) (chunk text : List Char) (started : Bool) (s : Session desktop)
      → Begun started s
      → typed s.inputs ++ chunk ≡ text
      → Ends
          (λ begun s'. Begun begun s' × (typed s'.inputs ≡ text))
          (type_rest delay chunk started s).0
          (type_rest delay chunk started s).1
  Ends-type_rest delay [] text started s b h =
      Ends-pure started s _ (b, sym (append-nil (typed s.inputs)) ∙ h)
  Ends-type_rest delay (c ∷ cs) text started s b h =
      Ends-bind (send (type_chunk (c ∷ cs) false false delay)) (λ u. pure true) s _
        (Ends-send _ s _
          λ s1 q. Ends-pure true s1 _ ((λ e. absurd (ground (arith, e))), ap typed q ∙ h))

  Ends-type_return :
      (press_return : Bool) (text : List Char) (s : Session desktop)
      → typed s.inputs ≡ text
      → Ends
          (λ u s'. typed s'.inputs ≡ text)
          (type_return press_return s).0
          (type_return press_return s).1
  Ends-type_return false text s h = Ends-pure tt s _ h
  Ends-type_return true text s h =
      Ends-send _ s _ λ s1 q. ap typed q ∙ (append-nil (typed s.inputs) ∙ h)

  Ends-refuse_if :
      (b : Bool) (message : String) (s : Session desktop)
      (Holds : Unit {0} → Session desktop → Type 0)
      → s.inputs ≡ []
      → Holds tt s
      → Ends Holds (refuse_if b message s).0 (refuse_if b message s).1
  Ends-refuse_if true message s Holds p h = Ends-raise _ s Holds λ e. p
  Ends-refuse_if false message s Holds p h = Ends-pure tt s Holds h

  -- From a session that sent no input, a typing that succeeds has typed its text, whole and in order. If
  -- it fails with an error that does not call the effect unknown, no input was sent.
  pub dispatch_type_text-Ends :
      (text : String) (clear press_return : Bool) (delay : Option ℕ) (deadline : ℤ)
      (s : Session desktop)
      → s.inputs ≡ []
      → Ends
          (λ u s'. typed s'.inputs ≡ chars text)
          (dispatch_type_text text clear press_return delay deadline s).0
          (dispatch_type_text text clear press_return delay deadline s).1
  unfolding dispatch_type_text
  dispatch_type_text-Ends text clear press_return delay deadline s p =
      Ends-bind (refuse_if _ _) _ s _ (
        Ends-refuse_if _ _ s _ p (
          Ends-then (λ started s'. Begun started s' × (typed s'.inputs ≡ [])) (type_clear clear) _ s
            _ (Ends-type_clear clear s p)
            λ cleared s1 (b1, e1).
              Ends-then (Typed (chars text))
                (type_chars (chunk_size delay) delay deadline (chars text) [] cleared) _ s1 _
                (Ends-type_chars (chunk_size delay) delay deadline (chars text) [] (chars text)
                  cleared s1 b1 (ap (λ l. l ++ chars text) e1))
                λ found s2 (b2, e2).
                  Ends-then (λ started s'. Begun started s' × (typed s'.inputs ≡ chars text))
                    (type_rest delay found.1 found.0) _ s2 _
                    (Ends-type_rest delay found.1 (chars text) found.0 s2 b2 e2)
                    λ started s3 (b3, e3). Ends-bind (stop started _ deadline) _ s3 _ (
                      Ends-stop started _ deadline s3 _ b3
                        λ s4 q. Ends-type_return press_return (chars text) s4 (ap typed q ∙ e3))))
