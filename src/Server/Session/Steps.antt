-- ===== src/Server/Session/Steps.antt =====
-- How handlers that are put together run.
use file_transfer_over_udp.Prelude.{◌≡◌, refl, ap, ◌∙◌, Bool, true, false, if◌then◌else◌}
use file_transfer_over_udp.Server.Session.{
  Session, Outcome, succeeded, Handler, ◌>>◌, skip, assign, reading, when,
}

-- A handler that returns `true` hands its session to the next one.
pub >>-succeeded :
    (f g : Handler) {s t : Session} {r : Outcome × Session}
    → f s ≡ (succeeded, t)
    → g t ≡ r
    → (f >> g) s ≡ r
unfolding ◌>>◌
>>-succeeded f g p q = ap (λ x. elim x.0 [ succeeded ↦ g x.1 | other ↦ (other, x.1) ]) p ∙ q

pub assign_lem : (f : Session → Session) (s : Session) → assign f s ≡ (succeeded, f s)
unfolding assign
assign_lem f s = refl

pub reading_lem :
    (h : Session → Handler) {s : Session} {r : Outcome × Session} → h s s ≡ r → reading h s ≡ r
unfolding reading
reading_lem h p = p

pub when-true :
    {b : Bool} (h : Handler) {s : Session} {r : Outcome × Session}
    → b ≡ true
    → h s ≡ r
    → when b h s ≡ r
unfolding when
when-true h {s} e p = ap (λ x. (if x then h else skip) s) e ∙ p

pub when-false : {b : Bool} (h : Handler) (s : Session) → b ≡ false → when b h s ≡ (succeeded, s)
unfolding when skip
when-false h s e = ap (λ x. (if x then h else skip) s) e
