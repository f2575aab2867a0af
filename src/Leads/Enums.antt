-- ===== src/Leads/Enums.antt =====
-- The enums of domain/leads/lead-enums.ts that only the statistics read, and the keys of all of them.
use memoflow_api.Prelude.{ℕ}
use memoflow_api.Leads.{
  Persona, apprentice, intern, student, other, WorkTool, trello, notion, teams, slack, email, drive,
  other_tool, LeadTier, hot, warm, cold, SuggestedAction, interview_and_pro_offer, scheduled_emails,
  newsletter, no_outreach,
}

pub data DeliverableType : Type 0 where
  thesis apprenticeship_report internship_report other_deliverable : DeliverableType

pub data AcademicLevel : Type 0 where
  l3 m1 m2 other_level : AcademicLevel

pub data Blocker : Type 0 where
  getting_started finding_past_work structuring writing lack_of_time : Blocker

pub data AcquisitionChannel : Type 0 where
  friend school tiktok instagram linkedin google other_channel : AcquisitionChannel

pub data LeadSignalType : Type 0 where
  export_paywall_hit : LeadSignalType

-- The place of a value in its enum: two values are the same key when their places are.
pub record Enum (K : Type 0) : Type 0 where
  pub place : K → ℕ

instance abbrev pub persona_enum : Enum Persona
persona_enum = record {
  place = λ k. elim k [ apprentice ↦ 0 | intern ↦ 1 | student ↦ 2 | other ↦ 3 ];
}

instance abbrev pub tool_enum : Enum WorkTool
tool_enum = record {
  place = λ k. elim k [
    | trello ↦ 0
    | notion ↦ 1
    | teams ↦ 2
    | slack ↦ 3
    | email ↦ 4
    | drive ↦ 5
    | other_tool ↦ 6
  ];
}

instance abbrev pub tier_enum : Enum LeadTier
tier_enum = record { place = λ k. elim k [ hot ↦ 0 | warm ↦ 1 | cold ↦ 2 ] }

instance abbrev pub action_enum : Enum SuggestedAction
action_enum = record {
  place = λ k. elim k [
    | interview_and_pro_offer ↦ 0
    | scheduled_emails ↦ 1
    | newsletter ↦ 2
    | no_outreach ↦ 3
  ];
}

instance abbrev pub deliverable_enum : Enum DeliverableType
deliverable_enum = record {
  place = λ k. elim k [
    | thesis ↦ 0
    | apprenticeship_report ↦ 1
    | internship_report ↦ 2
    | other_deliverable ↦ 3
  ];
}

instance abbrev pub level_enum : Enum AcademicLevel
level_enum = record { place = λ k. elim k [ l3 ↦ 0 | m1 ↦ 1 | m2 ↦ 2 | other_level ↦ 3 ] }

instance abbrev pub blocker_enum : Enum Blocker
blocker_enum = record {
  place = λ k. elim k [
    | getting_started ↦ 0
    | finding_past_work ↦ 1
    | structuring ↦ 2
    | writing ↦ 3
    | lack_of_time ↦ 4
  ];
}

instance abbrev pub channel_enum : Enum AcquisitionChannel
channel_enum = record {
  place = λ k. elim k [
    | friend ↦ 0
    | school ↦ 1
    | tiktok ↦ 2
    | instagram ↦ 3
    | linkedin ↦ 4
    | google ↦ 5
    | other_channel ↦ 6
  ];
}

instance abbrev pub signal_enum : Enum LeadSignalType
signal_enum = record { place = λ k. 0 }
