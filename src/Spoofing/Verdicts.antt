-- ===== src/Spoofing/Verdicts.antt =====
-- assess_spoofing of src/tfr/spoofing.py: what an answer depends on.
use tfr.Base.{
  ℕ, ◌≡◌, refl, Bool, true, false, ◌||◌, Option, none, some, List, [], leb, arith, Result, ok, err,
  Bool-cases, inl, inr, length, take, strip, text_eq, codes,
}
use mathlib.Core.Path.{subst}
use tfr.Json.Lookup.{text_eq_sound}
use tfr.Events.{
  EventKind, Provenance, SpoofStatus, SpoofReason, SpoofAssessment, not_spoofed, spoofed,
  speaker_mismatch, missing_nospoof_prefix, Error, new_assessment, is_empty, invalid_speaker_span,
}
use tfr.Spoofing.{
  Alphabet, assessed, judge_say, assess_say, judge_pose, assess_pose, assess, assess_spoofing,
  known_pose_speaker, match_say, verified_sender, speaker_prefix, is_pose,
}

module _ (a : Alphabet) where
  -- A speaker that is the verified sender, but for the case of letters.
  abbrev pub IsSender : Option (List ℕ) → List ℕ → Type 0
  IsSender o speaker =
      (sender : List ℕ) × (o ≡ some sender) × (a.casefold speaker ≡ a.casefold sender)

  -- An answer that clears a line names the verified sender.
  abbrev pub IsVouched : Option (List ℕ) → Result Error (Option SpoofAssessment) → Type 0
  IsVouched o (err e) = Unit
  IsVouched o (ok none) = Unit
  IsVouched o (ok (some x)) = x.status ≡ not_spoofed → IsSender o x.speaker

  assessed-IsVouched :
      (o : Option (List ℕ)) (status : SpoofStatus) (speaker : List ℕ) (span : ℕ × ℕ)
      (reason : Option SpoofReason)
      → (status ≡ not_spoofed → IsSender o speaker)
      → IsVouched o (assessed status speaker span reason)
  unfolding assessed new_assessment
  assessed-IsVouched o status speaker (start, end) reason h =
      elim (Bool-cases (is_empty speaker || leb end start)) [ inl e ↦ rw e tt | inr e ↦ rw e h ]

  judge_pose-IsVouched :
      (o : Option (List ℕ)) (text : List ℕ) (apparent : Option (List ℕ)) (reason : SpoofReason)
      → IsVouched o (judge_pose a text apparent reason)
  unfolding judge_pose
  judge_pose-IsVouched o text none reason = tt
  judge_pose-IsVouched o text (some speaker) reason =
      assessed-IsVouched o spoofed (take (length speaker) text) (0, length speaker) (some reason)
        (λ e. cc)

  judge_say-IsVouched :
      (o : Option (List ℕ)) (missing : Bool) (speaker : List ℕ) (span : ℕ × ℕ)
      → IsVouched o (judge_say a o missing speaker span)
  unfolding judge_say
  judge_say-IsVouched (some sender) missing speaker span =
      elim (Bool-cases (text_eq (a.casefold speaker) (a.casefold sender))) [
        | inl e ↦ rw e (
            assessed-IsVouched (some sender) not_spoofed speaker span none
              (λ q. (sender, refl, text_eq_sound (a.casefold speaker) (a.casefold sender) e)))
        | inr e ↦ rw e (
            assessed-IsVouched (some sender) spoofed speaker span (some speaker_mismatch) (λ q. cc))
      ]
  judge_say-IsVouched none true speaker span =
      assessed-IsVouched none spoofed speaker span (some missing_nospoof_prefix) (λ q. cc)
  judge_say-IsVouched none false speaker span = tt

  prefix-casefold :
      (text sender : List ℕ)
      → speaker_prefix a text sender ≡ true
      → a.casefold (take (length sender) text) ≡ a.casefold sender
  unfolding speaker_prefix
  prefix-casefold text sender h =
      text_eq_sound (a.casefold (take (length sender) text)) (a.casefold sender) (ground arith)

  assess_pose-IsVouched :
      (text : List ℕ) (o apparent : Option (List ℕ)) (missing : Bool)
      → IsVouched o (assess_pose a text o apparent missing)
  unfolding assess_pose
  assess_pose-IsVouched text (some sender) apparent missing =
      elim (Bool-cases (speaker_prefix a text sender)) [
        | inl e ↦ rw e (
            assessed-IsVouched (some sender) not_spoofed (take (length sender) text)
              (0, length sender) none (λ q. (sender, refl, prefix-casefold text sender e)))
        | inr e ↦ rw e (judge_pose-IsVouched (some sender) text apparent speaker_mismatch)
      ]
  assess_pose-IsVouched text none apparent true =
      judge_pose-IsVouched none text apparent missing_nospoof_prefix
  assess_pose-IsVouched text none apparent false = tt

  assess-IsVouched :
      (said : Option ℕ) (text : List ℕ) (kind : EventKind) (o : Option (List ℕ))
      (known_senders : List (List ℕ)) (missing : Bool)
      → IsVouched o (assess a said text kind o known_senders missing)
  unfolding assess assess_say
  assess-IsVouched (some end) text kind o known_senders missing =
      elim (Bool-cases (text_eq (a.casefold (strip a.is_space (take end text))) (codes "you"))) [
        | inl e ↦ rw e tt
        | inr e ↦ rw e (judge_say-IsVouched o missing (strip a.is_space (take end text)) (0, end))
      ]
  assess-IsVouched none text kind o known_senders missing = elim (Bool-cases (is_pose kind)) [
    | inl e ↦ rw e (assess_pose-IsVouched text o (known_pose_speaker a text known_senders) missing)
    | inr e ↦ rw e tt
  ]

  vouched :
      (o : Option (List ℕ)) (answer : Result Error (Option SpoofAssessment)) (x : SpoofAssessment)
      → IsVouched o answer
      → answer ≡ ok (some x)
      → x.status ≡ not_spoofed
      → IsSender o x.speaker
  vouched o answer x v h s = subst (IsVouched o) h v s

  -- A line is cleared of spoofing only with a verified sender, and the speaker that the answer names
  -- is that sender, without regard to case.
  pub not_spoofed-IsSender :
      (text : List ℕ) (kind : EventKind) (provenance : Option Provenance)
      (known_senders : List (List ℕ)) (missing : Bool) (x : SpoofAssessment)
      → assess_spoofing a text kind provenance known_senders missing ≡ ok (some x)
      → x.status ≡ not_spoofed
      → IsSender (verified_sender a provenance) x.speaker
  unfolding assess_spoofing
  not_spoofed-IsSender text kind provenance known_senders missing x h s =
      vouched (verified_sender a provenance)
        (assess_spoofing a text kind provenance known_senders missing) x
        (assess-IsVouched (match_say a text) text kind (verified_sender a provenance) known_senders
          missing)
        h s

  judge_blank :
      (o : Option (List ℕ)) (sender : List ℕ) (missing : Bool) (span : ℕ × ℕ)
      → o ≡ some sender
      → judge_say a o missing [] span ≡ err invalid_speaker_span
  unfolding judge_say assessed new_assessment is_empty
  judge_blank none sender missing span h = cc
  judge_blank (some other) sender missing (start, end) h =
      elim (Bool-cases (text_eq (a.casefold []) (a.casefold other))) [
        | inl e ↦ rw e refl
        | inr e ↦ rw e refl
      ]

  -- A line that has nothing but white space in the place of the speaker makes assess_spoofing raise
  -- the ValueError of SpoofAssessment if its sender is verified and the case folding of the empty text
  -- is not "you".
  pub blank_speaker_raises :
      (text : List ℕ) (kind : EventKind) (provenance : Option Provenance)
      (known_senders : List (List ℕ)) (missing : Bool) (end : ℕ) (sender : List ℕ)
      → match_say a text ≡ some end
      → strip a.is_space (take end text) ≡ []
      → text_eq (a.casefold []) (codes "you") ≡ false
      → verified_sender a provenance ≡ some sender
      → assess_spoofing a text kind provenance known_senders missing ≡ err invalid_speaker_span
  unfolding assess_spoofing assess assess_say
  blank_speaker_raises text kind provenance known_senders missing end sender m b c v =
      rw (m, b, c) (judge_blank (verified_sender a provenance) sender missing (0, end) v)
