-- ===== src/Blockchain/Send/Nonces.antt =====
-- The nonces of consecutive sends.
use logchain.Prelude.{ℕ, ◌+◌, ◌≤◌, ◌<◌, ◌≡◌, refl, Option, none, some, List, [], ◌∷◌, All, arith}
use logchain.Errors.{Result, ok, err}
use logchain.Blockchain.Send.{
  LastSent, SendAnswers, Sent, attempt, send_store_root, chosen_nonce, nonce_hint,
  nonce_hint_ttl_ms,
}

abbrev add_nonce : Result Sent → List ℕ → List ℕ
add_nonce (ok t) ns = t.nonce ∷ ns
add_nonce (err e) ns = ns

-- The nonces of the sends that succeeded, in order.
unfoldable pub sent_nonces : Option ℕ → Option LastSent → List SendAnswers → List ℕ
sent_nonces tip_cap last [] = []
sent_nonces tip_cap last (a ∷ more) =
    let (sent, last') = send_store_root tip_cap last a in
    add_nonce sent (sent_nonces tip_cap last' more)

abbrev pub AllAbove : ℕ → List ℕ → Type 0
AllAbove n ns = All (λ m. n < m) ns

-- Strictly increasing.
abbrev pub IsIncreasing : List ℕ → Type 0
IsIncreasing [] = Unit
IsIncreasing (n ∷ ns) = AllAbove n ns × IsIncreasing ns

-- A nonce is at least the one after the last that is still remembered.
hint-le-nonce :
    (tip_cap : Option ℕ) (last : Option LastSent) (a : SendAnswers) (t : Sent)
    → attempt tip_cap last a ≡ ok t
    → nonce_hint last a.asked_at ≤ t.nonce
unfolding attempt chosen_nonce
hint-le-nonce tip_cap last a t h = ground arith

-- Inside the window that starts at `t0` the recorded nonce is trusted.
abbrev IsRecent : ℕ → Option LastSent → Type 0
IsRecent t0 none = Unit
IsRecent t0 (some l) = t0 ≤ l.at

abbrev AboveLast : Option LastSent → ℕ → Type 0
AboveLast none n = Unit
AboveLast (some l) n = l.nonce < n

abbrev AllAboveLast : Option LastSent → List ℕ → Type 0
AllAboveLast none ns = Unit
AllAboveLast (some l) ns = AllAbove l.nonce ns

AboveLast-of_hint :
    (t0 now n : ℕ) (last : Option LastSent)
    → IsRecent t0 last
    → now < t0 + nonce_hint_ttl_ms
    → nonce_hint last now ≤ n
    → AboveLast last n
unfolding nonce_hint
AboveLast-of_hint t0 now n none r w h = tt
AboveLast-of_hint t0 now n (some l) r w h = ground arith

AllAbove-trans : (m n : ℕ) (ns : List ℕ) → m < n → AllAbove n ns → AllAbove m ns
AllAbove-trans m n [] h k = tt
AllAbove-trans m n (x ∷ xs) h k = (omega arith, AllAbove-trans m n xs h k.1)

AllAboveLast-cons :
    (last : Option LastSent) (n : ℕ) (ns : List ℕ)
    → AboveLast last n
    → AllAbove n ns
    → AllAboveLast last (n ∷ ns)
AllAboveLast-cons none n ns h k = tt
AllAboveLast-cons (some l) n ns h k = (h, AllAbove-trans l.nonce n ns h k)

abbrev pub InWindow : ℕ → SendAnswers → Type 0
InWindow t0 a = (t0 ≤ a.sent_at) × (a.asked_at < t0 + nonce_hint_ttl_ms)

AllAboveLast-none : (last : Option LastSent) → AllAboveLast last []
AllAboveLast-none none = tt
AllAboveLast-none (some l) = tt

sent_nonces_step :
    (tip_cap : Option ℕ) (t0 : ℕ) (last : Option LastSent) (as' : List SendAnswers)
    → IsRecent t0 last
    → All (InWindow t0) as'
    → AllAboveLast last (sent_nonces tip_cap last as') × IsIncreasing (sent_nonces tip_cap last as')
unfolding sent_nonces send_store_root
sent_nonces_step tip_cap t0 last [] r w = (AllAboveLast-none last, tt)
sent_nonces_step tip_cap t0 last (a ∷ more) r w =
    go (attempt tip_cap last a) refl (λ l. sent_nonces_step tip_cap t0 l more)
  where
    go :
        (s : Result Sent)
        → attempt tip_cap last a ≡ s
        → ((l : Option LastSent)
            → IsRecent t0 l
            → All (InWindow t0) more
            → AllAboveLast l (sent_nonces tip_cap l more)
              × IsIncreasing (sent_nonces tip_cap l more))
        → AllAboveLast last (sent_nonces tip_cap last (a ∷ more))
          × IsIncreasing (sent_nonces tip_cap last (a ∷ more))
    go (err e) h ih = rw h (ih last r w.1)
    go (ok t) h ih =
        let (above, rest) = ih (some (record { nonce = t.nonce; at = a.sent_at })) w.0.0 w.1 in
        let fresh =
          AboveLast-of_hint t0 a.asked_at t.nonce last r w.0.1 (hint-le-nonce tip_cap last a t h) in
        rw h (AllAboveLast-cons last t.nonce _ fresh above, (above, rest))

-- Sends that are asked for within a minute of the first never use a nonce twice: the nonces of
-- those that succeed strictly increase, whatever the node answers as the pending nonce, and however
-- many sends fail in between.
pub sent_nonces-IsIncreasing :
    (tip_cap : Option ℕ) (t0 : ℕ) (sends : List SendAnswers)
    → All (InWindow t0) sends
    → IsIncreasing (sent_nonces tip_cap none sends)
sent_nonces-IsIncreasing tip_cap t0 sends w = (sent_nonces_step tip_cap t0 none sends tt w).1
