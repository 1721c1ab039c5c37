-- ===== src/World/Rows.antt =====
-- The rows of the tables that the services read and write (prisma/schema.prisma). An id is a
-- number, since ids are only compared. A DateTime is a number of milliseconds. A Decimal column
-- has two decimal places and holds no negative value, so it is a number of hundredths. A text that
-- is measured or searched is the list of its UTF-16 units; any other text is a number.
use corporate_lawyers_backen.Prelude.{ℕ, Bool, Option, List}

pub data UserRole : Type 0 where
  super_admin admin lawyer assistant client : UserRole

pub data UserStatus : Type 0 where
  active inactive suspended pending_verification : UserStatus

pub data CaseStatus : Type 0 where
  intake active in_hearing sentencing appeal closed archived : CaseStatus

pub data InvoiceStatus : Type 0 where
  draft sent paid overdue cancelled partially_paid : InvoiceStatus

pub data PaymentStatus : Type 0 where
  pending completed failed refunded : PaymentStatus

pub data PaymentMethod : Type 0 where
  credit_card debit_card bank_transfer cash check : PaymentMethod

pub data CaseAssignmentRole : Type 0 where
  lead_attorney co_counsel assistant supervisor : CaseAssignmentRole

pub data CasePriority : Type 0 where
  low medium high urgent : CasePriority

pub data LeadStatus : Type 0 where
  new contacted qualified consultation_scheduled converted discarded : LeadStatus

pub data LeadSource : Type 0 where
  website referral social_media phone walk_in advertisement other : LeadSource

abbrev pub Text : Type 0
Text = List ℕ

pub record User : Type 0 where
  pub id : ℕ
  pub email : Text
  pub first_name : Text
  pub last_name : Text
  pub role : UserRole
  pub status : UserStatus
  pub deleted_at : Option ℕ

pub record ClientProfile : Type 0 where
  pub id : ℕ
  pub user_id : ℕ

pub record LawyerProfile : Type 0 where
  pub user_id : ℕ
  pub hourly_rate : ℕ
  pub specializations : List ℕ

-- The type of a case is the number of its place in the enumeration. Its case number is the year of
-- its prefix and the number of its digits.
pub record Case : Type 0 where
  pub id : ℕ
  pub year : ℕ
  pub number : ℕ
  pub title : ℕ
  pub description : Option ℕ
  pub case_type : ℕ
  pub legal_area : Option ℕ
  pub court : Option ℕ
  pub court_file_number : Option ℕ
  pub priority : CasePriority
  pub status : CaseStatus
  pub client_profile_id : ℕ
  pub close_date : Option ℕ
  pub deleted_at : Option ℕ

pub record CaseAssignment : Type 0 where
  pub id : ℕ
  pub case_id : ℕ
  pub user_id : ℕ
  pub role : CaseAssignmentRole
  pub removed_at : Option ℕ

pub record TimeEntry : Type 0 where
  pub id : ℕ
  pub case_id : ℕ
  pub lawyer_id : ℕ
  pub description : ℕ
  pub hours : ℕ
  pub rate : ℕ
  pub is_billable : Bool
  pub is_billed : Bool
  pub date : ℕ
  pub invoice_id : Option ℕ
  pub deleted_at : Option ℕ

pub record Expense : Type 0 where
  pub id : ℕ
  pub case_id : ℕ
  pub created_by_id : ℕ
  pub description : ℕ
  pub amount : ℕ
  pub is_billable : Bool
  pub is_billed : Bool
  pub date : ℕ
  pub receipt_url : Option ℕ
  pub invoice_id : Option ℕ
  pub deleted_at : Option ℕ

pub record Invoice : Type 0 where
  pub id : ℕ
  pub case_id : ℕ
  pub client_profile_id : ℕ
  pub subtotal : ℕ
  pub tax_rate : ℕ
  pub tax_amount : ℕ
  pub total : ℕ
  pub status : InvoiceStatus
  pub due_date : ℕ
  pub paid_at : Option ℕ
  pub notes : Option ℕ
  pub deleted_at : Option ℕ

pub record InvoiceItem : Type 0 where
  pub id : ℕ
  pub invoice_id : ℕ
  pub description : ℕ
  pub quantity : ℕ
  pub unit_price : ℕ
  pub amount : ℕ

pub record Payment : Type 0 where
  pub id : ℕ
  pub invoice_id : ℕ
  pub amount : ℕ
  pub method : PaymentMethod
  pub status : PaymentStatus
  pub paid_at : ℕ

-- A phone or an area that is empty counts as missing, as in the code's tests.
pub record Lead : Type 0 where
  pub id : ℕ
  pub first_name : Text
  pub last_name : Text
  pub email : Text
  pub phone : Option ℕ
  pub source : LeadSource
  pub area_of_interest : Option ℕ
  pub message : Option Text
  pub score : ℕ
  pub status : LeadStatus
  pub assigned_to_id : Option ℕ

pub record IntakeForm : Type 0 where
  pub lead_id : ℕ

-- `result` is true when nothing was found.
pub record ConflictCheck : Type 0 where
  pub id : ℕ
  pub lead_id : ℕ
  pub checked_by_id : ℕ
  pub result : Bool

pub record CaseParty : Type 0 where
  pub case_id : ℕ
  pub name : Text
