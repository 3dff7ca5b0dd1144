-- ===== src/Linear.antt =====
-- backend/leanstore/storage/hashing/LinearHashing.hpp and LinearHashing.cpp: linear hashing over pages.
pub mod Page
pub mod Search
pub mod Fitting
pub mod Table
pub mod Split
pub mod Placing
pub mod Apart
pub mod Parting
pub mod Chaining
pub mod Addressing
pub mod Valid
pub mod Written
pub mod Moving
pub mod Checking
pub mod Rounds
pub mod Splitting
pub mod Roomy
pub mod Access
pub mod Remove
pub mod Answers
pub mod Inserting
pub mod Cutting
pub mod Replacing
pub mod Merging
pub mod Removing
pub mod Settling
pub mod Renewing
pub mod Upserting
pub mod Client
